-- ===== src/Ubler.antt =====
-- pset5/ubler: drivers who pick up customers or their meals.
-- Arrays are functions of the index, and a pointer into one is an index, with `none` for NULL. In
-- the option monad `none` is an access through NULL. The counters are of type `int`; they are
-- numbers here.
pub mod Requests
pub mod Drivers
use cs61_psets.Common.{
  ℕ, ◌+◌, Bool, true, false, Option, none, some, ◌==◌, if◌then◌else◌, ◌>>=◌, ◌>>◌, assert, put,
}

-- `==` on pointers
abbrev pub same : Option ℕ → Option ℕ → Bool
same none none = true
same (some x) (some y) = x == y
same _ _ = false

-- `private_tracking`, which each meal and each customer has one of
pub record Tracking : Type 0 where
  pub num_picked_up : ℕ
  pub num_completed : ℕ

abbrev pub private_tracking_create : Tracking
private_tracking_create = record { num_picked_up = 0; num_completed = 0 }

abbrev pub pick_up : Tracking → Tracking
pick_up t = record t { num_picked_up = t.num_picked_up + 1 }

abbrev pub complete : Tracking → Tracking
complete t = record t { num_completed = t.num_completed + 1 }

-- `struct meal`
pub record Meal : Type 0 where
  pub stats : Tracking
  pub customer : Option ℕ
  pub restaurant : Option ℕ

-- `struct customer`, with whether its `lock` is held
pub record Customer : Type 0 where
  pub stats : Tracking
  pub meal : Option ℕ
  pub location : Option ℕ
  pub locked : Bool

-- `struct driver` with its `driver_stats`
pub record Driver : Type 0 where
  pub location : Option ℕ
  pub num_meals_picked_up : ℕ
  pub num_customers_picked_up : ℕ
  pub num_meals_delivered : ℕ
  pub num_customers_delivered : ℕ

-- The arrays that all threads share; a restaurant is its location.
pub record App : Type 0 where
  pub meals : ℕ → Meal
  pub customers : ℕ → Customer
  pub restaurants : ℕ → Option ℕ

abbrev pub init_meal : Meal
init_meal = record { stats = private_tracking_create; customer = none; restaurant = none }

abbrev pub init_customer : Customer
init_customer = record {
  stats = private_tracking_create;
  meal = none;
  location = none;
  locked = false;
}

abbrev pub set_meal : App → ℕ → Meal → App
set_meal a m meal = record a { meals = put a.meals m meal }

abbrev pub set_customer : App → ℕ → Customer → App
set_customer a c customer = record a { customers = put a.customers c customer }

abbrev pub meal_set_customer : App → ℕ → Option ℕ → App
meal_set_customer a m c = set_meal a m (record (a.meals m) { customer = c })

abbrev pub customer_set_meal : App → ℕ → Option ℕ → App
customer_set_meal a c m = set_customer a c (record (a.customers c) { meal = m })

abbrev pub pick_customer_up : App → ℕ → App
pick_customer_up a c =
    set_customer a c (record (a.customers c) { stats = pick_up (a.customers c).stats })

abbrev pub pick_meal_up : App → ℕ → App
pick_meal_up a m = set_meal a m (record (a.meals m) { stats = pick_up (a.meals m).stats })

abbrev pub complete_customer : App → ℕ → App
complete_customer a c =
    set_customer a c (record (a.customers c) { stats = complete (a.customers c).stats })

abbrev pub complete_meal : App → ℕ → App
complete_meal a m = set_meal a m (record (a.meals m) { stats = complete (a.meals m).stats })

-- The second statement of `drop_off_customer`, after `complete_customer`.
unfoldable pub drop_off_own_meal : App → ℕ → Option App
drop_off_own_meal a c = do m ← (a.customers c).meal; some (complete_meal a m)

-- What `drop_off_meal` does after `complete_meal`. With a mismatch it prints a message and leaves
-- the customer alone.
unfoldable pub drop_off_own_customer : App → (m c : ℕ) → App
drop_off_own_customer a m c =
    if same (a.meals m).customer (some c) then complete_customer a c else a
