-- ===== src/Ubler/Drivers.antt =====
-- pset5/ubler/ubler.c: `driver_thread`, and the driver helpers of ubler_helpers.c that it calls.
-- A driver stands at one of the points below, and what it does up to the next point is one section;
-- the sections of the drivers interleave freely. A customer's lock is held across sections.
pub mod Invariant
pub mod Sections
pub mod Delivery
pub mod Steps
pub mod Start
pub mod Once
mod Tests
use cs61_psets.Common.{
  ℕ, ◌+◌, ◌<◌, ◌≡◌, Bool, true, false, Option, none, some, leb, ◌==◌, ◌&&◌, not, if◌then◌else◌,
  ◌>>=◌, put,
}
use cs61_psets.Ubler.{
  App, Customer, Driver, set_customer, pick_customer_up, pick_meal_up, complete_customer,
  complete_meal, drop_off_own_meal, drop_off_own_customer,
}
use cs61_psets.Ubler.Requests.{
  Positions, receive_request, init_restaurants, init_requests, mix_up_meals,
}

-- The local variables of an iteration: `customer`, `meal`, `srcLocation` and `destLocation`.
pub record Trip : Type 0 where
  pub is_customer : Bool
  pub customer : ℕ
  pub meal : ℕ
  pub src : Option ℕ
  pub dest : Option ℕ

pub data Point : Type 0 where
  -- before `receive_request`
  receiving : Point
  -- with a request, a customer if the flag is true
  received : Bool → ℕ → Point
  -- before `pthread_mutex_lock`
  locking : Trip → Point
  -- with the lock, before the test and before the pick-up
  testing picking : Trip → Point
  -- on the way to the destination, and after the first of the two deliveries, without the lock
  carrying dropping : Trip → Point
  returned : Point

abbrev pub driver_drive_to_location : Driver → Option ℕ → Driver
driver_drive_to_location d location = record d { location = location }

abbrev pub driver_pick_meal_up : App → Driver → ℕ → App × Driver
driver_pick_meal_up a d m =
    (pick_meal_up a m, record d { num_meals_picked_up = d.num_meals_picked_up + 1 })

abbrev pub driver_pick_customer_up : App → Driver → ℕ → App × Driver
driver_pick_customer_up a d c =
    (pick_customer_up a c, record d { num_customers_picked_up = d.num_customers_picked_up + 1 })

-- `driver_drop_off_meal` and `driver_drop_off_customer` up to the first of the two calls of
-- `complete`, which is for what the driver carries
abbrev pub driver_drop_off_meal : App → Driver → ℕ → App × Driver
driver_drop_off_meal a d m =
    (complete_meal a m, record d { num_meals_delivered = d.num_meals_delivered + 1 })

abbrev pub driver_drop_off_customer : App → Driver → ℕ → App × Driver
driver_drop_off_customer a d c =
    (complete_customer a c, record d { num_customers_delivered = d.num_customers_delivered + 1 })

abbrev pub set_locked : App → ℕ → Bool → App
set_locked a c b = set_customer a c (record (a.customers c) { locked = b })

abbrev pub picked_up : App → (c m : ℕ) → Bool × Bool
picked_up a c m =
    (not ((a.customers c).stats.num_picked_up == 0), not ((a.meals m).stats.num_picked_up == 0))

-- From the request to the lock: the quick check, and the two locations.
unfoldable pub driver_look : App → (is_customer : Bool) (request : ℕ) → Option Point
driver_look a true c = do
  m ← (a.customers c).meal
  let (by_customer, by_meal) = picked_up a c m
  if by_customer && by_meal then some receiving else (do
    r ← (a.meals m).restaurant
    some (
        locking (record {
          is_customer = true;
          customer = c;
          meal = m;
          src = (a.customers c).location;
          dest = a.restaurants r;
        })))
driver_look a false m = do
  c ← (a.meals m).customer
  let (by_customer, by_meal) = picked_up a c m
  if by_customer && by_meal then some receiving else (do
    r ← (a.meals m).restaurant
    some (
        locking (record {
          is_customer = false;
          customer = c;
          meal = m;
          src = a.restaurants r;
          dest = (a.customers c).location;
        })))

-- `pthread_mutex_lock`; while another thread has the lock nothing happens.
unfoldable pub driver_lock : App → Trip → App × Point
driver_lock a t =
    if (a.customers t.customer).locked
    then (a, locking t)
    else (set_locked a t.customer true, testing t)

-- The test under the lock, and the way to the source.
unfoldable pub driver_test : App → Driver → Trip → App × Driver × Point
driver_test a d t =
    let (by_customer, by_meal) = picked_up a t.customer t.meal in
    if not by_customer && not by_meal
    then (a, driver_drive_to_location d t.src, picking t)
    else (set_locked a t.customer false, d, receiving)

-- The pick-up, the unlock, and the way to the destination.
unfoldable pub driver_pick : App → Driver → Trip → App × Driver × Point
driver_pick a d t =
    let (a', d') =
      if t.is_customer
      then driver_pick_customer_up a d t.customer
      else driver_pick_meal_up a d t.meal in
    (set_locked a' t.customer false, driver_drive_to_location d' t.dest, carrying t)

-- The drop-off, without the lock: other drivers may run between its two increments.
unfoldable pub driver_drop : App → Driver → Trip → App × Driver
driver_drop a d t =
    if t.is_customer
    then driver_drop_off_customer a d t.customer
    else driver_drop_off_meal a d t.meal

unfoldable pub driver_drop_rest : App → Trip → Option App
unfolding drop_off_own_meal drop_off_own_customer
driver_drop_rest a t =
    if t.is_customer
    then drop_off_own_meal a t.customer
    else some (drop_off_own_customer a t.meal t.customer)

-- What all the threads share and each one's own; the drivers are numbered.
pub record System : Type 0 where
  pub app : App
  pub positions : Positions
  pub drivers : ℕ → Driver
  pub points : ℕ → Point

-- One section of `driver_thread`, with `coin` for the random number of `receive_request`.
unfoldable pub driver_section :
    (requests : ℕ) (deliver_meals_and_customers coin : Bool)
    → App
    → Positions
    → Driver
    → Point
    → Option (App × Positions × Driver × Point)
unfolding driver_look driver_lock driver_test driver_pick driver_drop driver_drop_rest
driver_section requests deliver coin a pos d receiving =
    let ((is_customer, r), pos') = receive_request a requests deliver coin pos in
    some (a, pos', d, elim r [ none ↦ returned | some request ↦ received is_customer request ])
driver_section requests deliver coin a pos d (received is_customer request) = do
  p ← driver_look a is_customer request
  some (a, pos, d, p)
driver_section requests deliver coin a pos d (locking t) =
    let (a', p) = driver_lock a t in some (a', pos, d, p)
driver_section requests deliver coin a pos d (testing t) =
    let (a', d', p) = driver_test a d t in some (a', pos, d', p)
driver_section requests deliver coin a pos d (picking t) =
    let (a', d', p) = driver_pick a d t in some (a', pos, d', p)
driver_section requests deliver coin a pos d (carrying t) =
    let (a', d') = driver_drop a d t in some (a', pos, d', dropping t)
driver_section requests deliver coin a pos d (dropping t) = do
  a' ← driver_drop_rest a t
  some (a', pos, d, receiving)
driver_section requests deliver coin a pos d returned = some (a, pos, d, returned)

module _ (requests num_drivers : ℕ) (deliver_meals_and_customers : Bool) where
  pub data Step (s t : System) : Type 0 where
    section :
        (i : ℕ) (coin : Bool) (a : App) (pos : Positions) (d : Driver) (p : Point)
        → i < num_drivers
        → driver_section requests deliver_meals_and_customers coin s.app s.positions
            (s.drivers i)
            (s.points i)
          ≡ some (a, pos, d, p)
        → t ≡ record {
          app = a;
          positions = pos;
          drivers = put s.drivers i d;
          points = put s.points i p;
        }
        → Step s t

  pub data Reach (s : System) : System → Type 0 where
    here : Reach s s
    next : {t u : System} → Reach s t → Step t u → Reach s u

-- `dispatch_drivers`, from where the drivers run.
abbrev pub dispatch_drivers : App → (driver_hub : ℕ) → System
dispatch_drivers a driver_hub = record {
  app = a;
  positions = record { meal_pos = 0; customer_pos = 0 };
  drivers = λ i. record {
    location = some driver_hub;
    num_meals_picked_up = 0;
    num_customers_picked_up = 0;
    num_meals_delivered = 0;
    num_customers_delivered = 0;
  };
  points = λ i. receiving;
}

-- The limits that `create_and_run_requests` checks, MAX_REQUESTS, MAX_DRIVERS and MAX_RESTAURANTS.
abbrev pub within_limits : (num_requests num_restaurants num_drivers : ℕ) → Bool
within_limits num_requests num_restaurants num_drivers =
    leb num_requests 4096 && leb num_drivers 128 && leb num_restaurants 32

-- `create_and_run_requests` up to the drivers' start, with the 32 locations of NUM_LOCATIONS:
-- `some none` for the result 1. Each of `rand`, `rand'`, `rand''` and `rand'''` is for one loop.
unfoldable pub set_up :
    (rand rand' rand'' rand''' : ℕ → ℕ) (num_requests num_restaurants num_drivers : ℕ)
    (mix_up : Bool)
    → (driver_hub : ℕ) → App
    → Option (Option System)
unfolding init_restaurants init_requests mix_up_meals
set_up rand rand' rand'' rand''' num_requests num_restaurants num_drivers mix_up driver_hub a =
    if within_limits num_requests num_restaurants num_drivers
    then (do
      let restaurants = init_restaurants rand 32 num_restaurants a.restaurants
      b ←
          init_requests rand' rand'' num_requests num_restaurants 32
            (record a { restaurants = restaurants })
      c ← (if mix_up then mix_up_meals rand''' b num_requests else some b)
      some (some (dispatch_drivers c driver_hub)))
    else some none
