-- ===== src/Ubler/Drivers/Invariant.antt =====
-- What holds of each customer and their meal while the drivers run.
use cs61_psets.Common.{
  some-injective, ℕ, ◌+◌, ◌≤◌, ◌<◌, ◌≡◌, sym, ◌∙◌, ap, ◌⊎◌, inl, inr, arith, some, ◌==◌,
  if◌then◌else◌, put, sum_to,
}
use cs61_psets.Ubler.{App}
use cs61_psets.Ubler.Requests.{if_one}
use cs61_psets.Ubler.Requests.Pairs.{Paired, customer_of, meal_of}
use cs61_psets.Ubler.Drivers.{
  Trip, Point, receiving, received, locking, testing, picking, carrying, dropping, returned, System,
}

-- whether a driver holds the lock of the customer `c`, is about to pick the pair up, or carries it
abbrev pub holds : ℕ → Point → ℕ
holds c (testing t) = if_one (t.customer == c)
holds c (picking t) = if_one (t.customer == c)
holds c _ = 0

abbrev pub goes : ℕ → Point → ℕ
goes c (picking t) = if_one (t.customer == c)
goes c _ = 0

abbrev pub carries : ℕ → Point → ℕ
carries c (carrying t) = if_one (t.customer == c)
carries c _ = 0

-- whether a driver has counted the delivery of the pair for one of them, and not yet for the
-- customer, or not yet for the meal
abbrev pub late_customer : ℕ → Point → ℕ
late_customer c (dropping t) = if t.is_customer then 0 else if_one (t.customer == c)
late_customer c _ = 0

abbrev pub late_meal : ℕ → Point → ℕ
late_meal c (dropping t) = if t.is_customer then if_one (t.customer == c) else 0
late_meal c _ = 0

-- a pair below `n`
abbrev pub Pair : App → ℕ → ℕ → ℕ → Type 0
Pair a n c m = (c < n) × (m < n) × (meal_of a c ≡ some m) × (customer_of a m ≡ some c)

abbrev pub Ready : App → ℕ → Point → Type 0
Ready a n receiving = Unit {0}
Ready a n (received b r) = r < n
Ready a n (locking t) = Pair a n t.customer t.meal
Ready a n (testing t) = Pair a n t.customer t.meal
Ready a n (picking t) = Pair a n t.customer t.meal
Ready a n (carrying t) = Pair a n t.customer t.meal
Ready a n (dropping t) = Pair a n t.customer t.meal
Ready a n returned = Unit {0}

-- the locks and the counters of the customer `c` and the meal `m`, with `k` drivers
pub record Served (k : ℕ) (a : App) (points : ℕ → Point) (c m : ℕ) : Type 0 where
  pub lock : sum_to (holds c) k points ≡ if_one (a.customers c).locked
  pub once :
      (a.customers c).stats.num_picked_up
        + (a.meals m).stats.num_picked_up
        + sum_to (goes c) k points
      ≤ 1
  pub under_way :
      (a.customers c).stats.num_picked_up + (a.meals m).stats.num_picked_up
      ≡ sum_to (carries c) k points
        + (a.customers c).stats.num_completed
        + sum_to (late_customer c) k points
  pub together :
      (a.meals m).stats.num_completed + sum_to (late_meal c) k points
      ≡ (a.customers c).stats.num_completed + sum_to (late_customer c) k points

pub record Inv (n k : ℕ) (s : System) : Type 0 where
  pub paired : Paired n s.app
  pub cooked : (m : ℕ) → m < n → (r : ℕ) × ((s.app.meals m).restaurant ≡ some r)
  pub meal_bound : s.positions.meal_pos ≤ n
  pub customer_bound : s.positions.customer_pos ≤ n
  pub ready : (i : ℕ) → Ready s.app n (s.points i)
  pub served : (c m : ℕ) → Pair s.app n c m → Served k s.app s.points c m

-- two states of the same pointers
pub record Kept (a b : App) : Type 0 where
  pub meal : (c : ℕ) → meal_of b c ≡ meal_of a c
  pub customer : (m : ℕ) → customer_of b m ≡ customer_of a m
  pub restaurant : (m : ℕ) → (b.meals m).restaurant ≡ (a.meals m).restaurant

pub goes-le-holds : (c : ℕ) (p : Point) → goes c p ≤ holds c p
goes-le-holds c receiving = omega arith
goes-le-holds c (received b r) = omega arith
goes-le-holds c (locking t) = omega arith
goes-le-holds c (testing t) = omega arith
goes-le-holds c (picking t) = omega arith
goes-le-holds c (carrying t) = omega arith
goes-le-holds c (dropping t) = omega arith
goes-le-holds c returned = omega arith

-- a pair is the trip's, or shares neither the customer nor the meal with it
pub Pair-cases :
    (a : App) (n c m : ℕ) (t : Trip)
    → Pair a n c m
    → Pair a n t.customer t.meal
    → ((c ≡ t.customer) × (m ≡ t.meal)) ⊎ ((c ≡ t.customer → ⊥) × (m ≡ t.meal → ⊥))
Pair-cases a n c m t (b1, b2, e1, e2) (b1', b2', e1', e2') = elim (eq_cases c t.customer) [
  | inl e ↦ inl (e, some-injective _ _ (sym e1 ∙ ap (meal_of a) e ∙ e1'))
  | inr ne ↦ inr (ne, λ e. ne (some-injective _ _ (sym e2 ∙ ap (customer_of a) e ∙ e2')))
]
  where
    eq_cases : (i j : ℕ) → (i ≡ j) ⊎ (i ≡ j → ⊥)
    eq_cases i j = ground arith

-- what a section of driver `i` does to the pairs
abbrev pub Serves : (n k i : ℕ) → App → (ℕ → Point) → App → Point → Type 0
Serves n k i a points a' p =
    Kept a a'
    × Ready a' n p
    × ((c m : ℕ) → Pair a n c m → Served k a points c m → Served k a' (put points i p) c m)
