-- ===== src/Ubler/Requests.antt =====
-- pset5/ubler/ubler_helpers.c: the requests and how they are set up, handed out and counted.
-- `rand` is the sequence of the numbers that the calls of `rand` return, by the place of the call.
pub mod Receive
pub mod Pairs
mod Tests
use cs61_psets.Common.{
  ℕ, zero, suc, ◌+◌, ◌-◌, ◌*◌, ◌%◌, Bool, true, false, Option, none, some, ltb, ◌==◌, ◌&&◌, ◌||◌,
  not, if◌then◌else◌, ◌>>=◌, put,
}
use cs61_psets.Ubler.{
  Tracking, Meal, Customer, Driver, App, init_meal, init_customer, set_meal, set_customer,
  meal_set_customer, customer_set_meal, same,
}

unfoldable pub swap_meals : App → (meal1 meal2 : ℕ) → (preserve_validity : Bool) → Option App
swap_meals a meal1 meal2 preserve_validity =
    let customer1 = (a.meals meal1).customer in
    let customer2 = (a.meals meal2).customer in
    let swapped = meal_set_customer (meal_set_customer a meal1 customer2) meal2 customer1 in
    if preserve_validity
    then (do
      c1 ← customer1
      let a' = customer_set_meal swapped c1 (some meal2)
      c2 ← customer2
      some (customer_set_meal a' c2 (some meal1)))
    else some swapped

-- The first `n` rounds of `init_restaurants`; `locations` is `num_locations`, which is not 0.
unfoldable pub init_restaurants :
    (rand : ℕ → ℕ) (locations n : ℕ) (restaurants : ℕ → Option ℕ) → ℕ → Option ℕ
init_restaurants rand locations zero restaurants = restaurants
init_restaurants rand locations (suc n) restaurants =
    put (init_restaurants rand locations n restaurants) n (some (rand n % locations))

-- `x % m` on numbers, which faults for 0
abbrev pub remainder : (x m : ℕ) → Option ℕ
remainder x m = if m == 0 then none else some (x % m)

-- The first `n` rounds of the first loop of `init_requests`.
unfoldable pub fill_requests : (rand : ℕ → ℕ) (num_restaurants locations n : ℕ) → App → Option App
fill_requests rand num_restaurants locations zero a = some a
fill_requests rand num_restaurants locations (suc n) a = do
  filled ← fill_requests rand num_restaurants locations n a
  restaurant ← remainder (rand (2 * n)) num_restaurants
  location ← remainder (rand (2 * n + 1)) locations
  some (
      set_customer
        (set_meal filled n (record init_meal { restaurant = some restaurant; customer = some n })) n
        (record init_customer { meal = some n; location = some location }))

-- The second loop, for the indices below `n`, from the last one down.
unfoldable pub shuffle : (rand : ℕ → ℕ) (n : ℕ) → App → Option App
unfolding swap_meals
shuffle rand zero a = some a
shuffle rand (suc n) a = do swapped ← swap_meals a n (rand n % (n + 1)) true; shuffle rand n swapped

unfoldable pub init_requests :
    (rand rand' : ℕ → ℕ) (num_requests num_restaurants locations : ℕ) → App → Option App
unfolding fill_requests shuffle
init_requests rand rand' num_requests num_restaurants locations a = do
  filled ← fill_requests rand num_restaurants locations num_requests a
  shuffle rand' num_requests filled

-- Whether the meal's customer points back at it.
abbrev pub agrees : App → ℕ → Option Bool
agrees a m = do
  c ← (a.meals m).customer
  some (elim (a.customers c).meal [ none ↦ false | some m' ↦ m' == m ])

-- The inner loop of `mix_up_meals` for the meal `i`, from the meal `j` on.
unfoldable pub mix_with : App → (i j n : ℕ) → Option App
unfolding swap_meals
mix_with a i j zero = some a
mix_with a i j (suc n) =
    let rest = mix_with a i (j + 1) n in
    if same (a.meals i).restaurant (a.meals j).restaurant
    then (do ok ← agrees a j; if ok then swap_meals a i j false else rest)
    else rest

-- The outer loop from the meal `i` on, with `n` meals to go.
unfoldable pub mix_up_from : (rand : ℕ → ℕ) → App → (i n : ℕ) → Option App
unfolding mix_with
mix_up_from rand a i zero = some a
mix_up_from rand a i (suc n) =
    let next = mix_up_from rand a (i + 1) n in
    let mixed = (do
      ok ← agrees a i
      b ← (if ok then mix_with a i (i + 1) n else some a)
      mix_up_from rand b (i + 1) n) in
    if rand i % 2 == 1 then mixed else next

unfoldable pub mix_up_meals : (rand : ℕ → ℕ) → App → (num_requests : ℕ) → Option App
unfolding mix_up_from
mix_up_meals rand a num_requests = mix_up_from rand a 0 num_requests

-- `fix_mismatch` of ubler.c.
unfoldable pub fix_mismatch : App → (meal_a : ℕ) → Option App
fix_mismatch a meal_a = do
  customer_b ← (a.meals meal_a).customer
  meal_b ← (a.customers customer_b).meal
  let customer_a = (a.meals meal_b).customer
  some (meal_set_customer (meal_set_customer a meal_a customer_a) meal_b (some customer_b))

-- The loop of `receive_request` over customers or meals, `completed` telling which of them are
-- done: what it finds, and `customerPos` or `mealPos` after it.
unfoldable pub receive_loop :
    ℕ → (completed : ℕ → Bool) (requests pos : ℕ) (looped : Bool) → Option ℕ × ℕ
receive_loop zero completed requests pos looped = (none, pos)
receive_loop (suc fuel) completed requests pos looped =
    let wrapped = receive_loop fuel completed requests 1 true in
    let onward = receive_loop fuel completed requests (pos + 1) looped in
    if not (ltb pos requests)
    then (none, pos)
    else if not (completed pos)
    then (some pos, pos + 1)
    else if (pos + 1 == requests) && not looped
    then wrapped
    else onward

-- `mealPos` and `customerPos`
pub record Positions : Type 0 where
  pub meal_pos : ℕ
  pub customer_pos : ℕ

abbrev pub from_start : (requests pos : ℕ) → ℕ
from_start requests pos = if pos == requests then 0 else pos

-- `receive_request`, with the pointers not NULL and `coin` for `rand() % 2`: whether the request is
-- a customer, and the request, `none` for the result -1.
unfoldable pub receive_request :
    App
    → (requests : ℕ) (deliver_meals_and_customers coin : Bool) → Positions
    → (Bool × Option ℕ) × Positions
unfolding receive_loop
receive_request a requests deliver_meals_and_customers coin pos =
    let is_customer = if deliver_meals_and_customers then coin else true in
    let (customer, customer_pos) =
      receive_loop (2 * requests + 1) (λ c. not ((a.customers c).stats.num_completed == 0)) requests
        (from_start requests pos.customer_pos) false in
    let (meal, meal_pos) =
      receive_loop (2 * requests + 1) (λ m. not ((a.meals m).stats.num_completed == 0)) requests
        (from_start requests pos.meal_pos) false in
    if is_customer
    then ((true, customer), record pos { customer_pos = customer_pos })
    else ((false, meal), record pos { meal_pos = meal_pos })

-- `ubler_stats`
pub record Stats : Type 0 where
  pub total_meals_picked_up : ℕ
  pub total_customers_picked_up : ℕ
  pub total_meals_ignored : ℕ
  pub total_customers_ignored : ℕ
  pub total_meals_overserviced : ℕ
  pub total_customers_overserviced : ℕ
  pub driver_meals_picked_up : ℕ
  pub driver_customers_picked_up : ℕ
  pub driver_meals_delivered : ℕ
  pub driver_customers_delivered : ℕ

abbrev pub no_stats : Stats
no_stats = record {
  total_meals_picked_up = 0;
  total_customers_picked_up = 0;
  total_meals_ignored = 0;
  total_customers_ignored = 0;
  total_meals_overserviced = 0;
  total_customers_overserviced = 0;
  driver_meals_picked_up = 0;
  driver_customers_picked_up = 0;
  driver_meals_delivered = 0;
  driver_customers_delivered = 0;
}

abbrev pub if_one : Bool → ℕ
if_one b = if b then 1 else 0

abbrev pub overserviced : Tracking → Bool
overserviced t = ltb 1 t.num_picked_up || ltb 1 t.num_completed

-- The first `n` rounds of the first loop of `record_stats`.
unfoldable pub count_requests : App → (n : ℕ) → Stats
count_requests a zero = no_stats
count_requests a (suc n) =
    let s = count_requests a n in
    let m = (a.meals n).stats in
    let c = (a.customers n).stats in
    record s {
      total_meals_picked_up = s.total_meals_picked_up + m.num_picked_up;
      total_customers_picked_up = s.total_customers_picked_up + c.num_picked_up;
      total_meals_ignored = s.total_meals_ignored + if_one (m.num_completed == 0);
      total_customers_ignored = s.total_customers_ignored + if_one (c.num_completed == 0);
      total_meals_overserviced = s.total_meals_overserviced + if_one (overserviced m);
      total_customers_overserviced = s.total_customers_overserviced + if_one (overserviced c);
    }

-- The first `n` rounds of its second loop.
unfoldable pub count_drivers : (drivers : ℕ → Driver) (n : ℕ) → Stats → Stats
count_drivers drivers zero s = s
count_drivers drivers (suc n) s =
    let t = count_drivers drivers n s in
    let d = drivers n in
    record t {
      driver_meals_picked_up = t.driver_meals_picked_up + d.num_meals_picked_up;
      driver_customers_picked_up = t.driver_customers_picked_up + d.num_customers_picked_up;
      driver_meals_delivered = t.driver_meals_delivered + d.num_meals_delivered;
      driver_customers_delivered = t.driver_customers_delivered + d.num_customers_delivered;
    }

unfoldable pub record_stats :
    App → (num_requests : ℕ) (drivers : ℕ → Driver) (num_drivers : ℕ) → Stats
unfolding count_requests count_drivers
record_stats a num_requests drivers num_drivers =
    count_drivers drivers num_drivers (count_requests a num_requests)
