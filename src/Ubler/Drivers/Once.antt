-- ===== src/Ubler/Drivers/Once.antt =====
-- No customer and no meal is picked up or delivered twice.
use cs61_psets.Common.{
  ℕ, zero, suc, ◌+◌, ◌≤◌, ◌<◌, ◌≡◌, refl, sym, ◌∙◌, ap, arith, Bool, false, some, sum_to,
  sum_to-zero, sum_to-cases, ltb, ◌||◌, ◌⊎◌, inl, inr,
}
use cs61_psets.Ubler.{App, Driver}
use cs61_psets.Ubler.Requests.{
  Positions, Stats, overserviced, if_one, count_requests, count_drivers, record_stats,
}
use cs61_psets.Ubler.Drivers.{
  Trip, Point, receiving, received, locking, testing, picking, carrying, dropping, returned, System,
  driver_section, Reach, set_up,
}
use cs61_psets.Ubler.Drivers.Invariant.{holds, carries, late_customer, late_meal, Pair, Inv}
use cs61_psets.Ubler.Drivers.Steps.{Reach-Inv, section-Moves}
use cs61_psets.Ubler.Drivers.Start.{set_up-Inv}

-- the counters of the customer `c` and of the meal `m` together
abbrev pub pick_ups : App → (c m : ℕ) → ℕ
pick_ups a c m = (a.customers c).stats.num_picked_up + (a.meals m).stats.num_picked_up

count_requests-once :
    (a : App) (n : ℕ)
    → ((i : ℕ)
        → i < n
        → (overserviced (a.meals i).stats ≡ false) × (overserviced (a.customers i).stats ≡ false))
    → ((count_requests a n).total_meals_overserviced ≡ 0)
      × ((count_requests a n).total_customers_overserviced ≡ 0)
unfolding count_requests
count_requests-once a zero h = (refl, refl)
count_requests-once a (suc n) h =
    let (meals, customers) = count_requests-once a n (λ i below. h i (omega arith)) in
    let (meal, customer) = h n (omega arith) in
    (omega (arith, meals, ap if_one meal), omega (arith, customers, ap if_one customer))

count_drivers-overserviced :
    (drivers : ℕ → Driver) (s : Stats) (n : ℕ)
    → ((count_drivers drivers n s).total_meals_overserviced ≡ s.total_meals_overserviced)
      × ((count_drivers drivers n s).total_customers_overserviced ≡ s.total_customers_overserviced)
unfolding count_drivers
count_drivers-overserviced drivers s zero = (refl, refl)
count_drivers-overserviced drivers s (suc n) = count_drivers-overserviced drivers s n

-- the driver has counted the delivery for one of the customer `c` and their meal
abbrev pub IsDropping : ℕ → Point → Type 0
IsDropping c p = (trip : Trip) × (p ≡ dropping trip) × (trip.customer ≡ c)

late_customer-IsDropping : (c : ℕ) (p : Point) → 1 ≤ late_customer c p → IsDropping c p
late_customer-IsDropping c receiving h = absurd (omega arith)
late_customer-IsDropping c (received b r) h = absurd (omega arith)
late_customer-IsDropping c (locking t) h = absurd (omega arith)
late_customer-IsDropping c (testing t) h = absurd (omega arith)
late_customer-IsDropping c (picking t) h = absurd (omega arith)
late_customer-IsDropping c (carrying t) h = absurd (omega arith)
late_customer-IsDropping c (dropping t) h = (t, refl, ground (arith, h))
late_customer-IsDropping c returned h = absurd (omega arith)

late_meal-IsDropping : (c : ℕ) (p : Point) → 1 ≤ late_meal c p → IsDropping c p
late_meal-IsDropping c receiving h = absurd (omega arith)
late_meal-IsDropping c (received b r) h = absurd (omega arith)
late_meal-IsDropping c (locking t) h = absurd (omega arith)
late_meal-IsDropping c (testing t) h = absurd (omega arith)
late_meal-IsDropping c (picking t) h = absurd (omega arith)
late_meal-IsDropping c (carrying t) h = absurd (omega arith)
late_meal-IsDropping c (dropping t) h = (t, refl, ground (arith, h))
late_meal-IsDropping c returned h = absurd (omega arith)

module _ (rand rand' rand'' rand''' : ℕ → ℕ) (n num_restaurants k driver_hub : ℕ) (a : App)
    (s : System) (deliver : Bool)
    (starts : set_up rand rand' rand'' rand''' n num_restaurants k false driver_hub a
      ≡ some (some s))
    (t : System) (run : Reach n k deliver s t) where
  -- some driver is between the two increments for the pair of the customer `c`
  abbrev pub Between : (ℕ → Point) → ℕ → Type 0
  Between points c = (i : ℕ) × (i < k) × IsDropping c (points i)

  inv : Inv n k t
  inv =
      Reach-Inv n k deliver
        (set_up-Inv rand rand' rand'' rand''' n num_restaurants k driver_hub a s starts) run

  -- In every state that the drivers reach from the set-up without mix-ups, a customer and their
  -- meal have together been picked up at most once, neither has more deliveries than that, and both
  -- have the same number of them, unless some driver is between the two increments for this pair.
  pub served_once :
      (c m : ℕ)
      → Pair t.app n c m
      → (pick_ups t.app c m ≤ 1)
        × ((t.app.customers c).stats.num_completed ≤ pick_ups t.app c m)
        × ((t.app.meals m).stats.num_completed ≤ pick_ups t.app c m)
        × (((t.app.meals m).stats.num_completed ≡ (t.app.customers c).stats.num_completed)
            ⊎ Between t.points c)
  served_once c m p =
      let v = inv.served c m p in
      (
        omega (arith, v.once),
        omega (arith, v.under_way),
        omega (arith, v.under_way, v.together),
        elim (sum_to-cases (late_customer c) k t.points) [
          | inr (i, below, late) ↦ inr (i, below, late_customer-IsDropping c (t.points i) late)
          | inl z ↦ elim (sum_to-cases (late_meal c) k t.points) [
            | inr (i, below, late) ↦ inr (i, below, late_meal-IsDropping c (t.points i) late)
            | inl z' ↦ inl (omega (arith, v.together, z, z'))
          ]
        ],
      )

  -- In every state that the drivers reach from the set-up without mix-ups, the next section of every
  -- driver returns: no pointer that it follows is NULL.
  pub driver_section_returns :
      (i : ℕ) (coin : Bool)
      → i < k
      → (x : App × Positions × Driver × Point) × (driver_section n deliver coin t.app t.positions
            (t.drivers i)
            (t.points i)
          ≡ some x)
  driver_section_returns i coin h =
      let (b, pos, d, p, runs, _, _, _) = section-Moves n k deliver t i coin h inv in
      ((b, pos, d, p), runs)

  -- In every state that the drivers reach from the set-up without mix-ups and in which all of them
  -- have returned, a customer and their meal have both been delivered as often as the two were
  -- picked up together, and the customer's lock is free.
  pub returned-over :
      ((i : ℕ) → i < k → t.points i ≡ returned)
      → (c m : ℕ) → Pair t.app n c m
      → ((t.app.customers c).stats.num_completed ≡ pick_ups t.app c m)
        × ((t.app.meals m).stats.num_completed ≡ pick_ups t.app c m)
        × ((t.app.customers c).locked ≡ false)
  returned-over all c m p =
      let v = inv.served c m p in
      let idle : sum_to (holds c) k t.points ≡ 0 =
        sum_to-zero (holds c) k t.points (λ i h. ap (holds c) (all i h)) in
      let empty : sum_to (carries c) k t.points ≡ 0 =
        sum_to-zero (carries c) k t.points (λ i h. ap (carries c) (all i h)) in
      let none_late : sum_to (late_customer c) k t.points ≡ 0 =
        sum_to-zero (late_customer c) k t.points (λ i h. ap (late_customer c) (all i h)) in
      let none_late' : sum_to (late_meal c) k t.points ≡ 0 =
        sum_to-zero (late_meal c) k t.points (λ i h. ap (late_meal c) (all i h)) in
      (
        omega (arith, v.under_way, empty, none_late),
        omega (arith, v.together, v.under_way, empty, none_late, none_late'),
        free (t.app.customers c).locked (sym v.lock ∙ idle),
      )
    where
      free : (b : Bool) → if_one b ≡ 0 → b ≡ false
      free b h = ground arith

  -- In every state that the drivers reach so, the statistics that `record_stats` computes count
  -- nothing as overserviced.
  pub record_stats-once :
      let stats = record_stats t.app n t.drivers k in
      (stats.total_meals_overserviced ≡ 0) × (stats.total_customers_overserviced ≡ 0)
  unfolding record_stats
  record_stats-once =
      let (meals, customers) = count_requests-once t.app n each in
      let (meals', customers') = count_drivers-overserviced t.drivers (count_requests t.app n) k in
      (meals' ∙ meals, customers' ∙ customers)
    where
      few : (x y : ℕ) → x ≤ 1 → y ≤ 1 → (ltb 1 x || ltb 1 y) ≡ false
      few x y h h' = ground arith

      each :
          (i : ℕ)
          → i < n
          → (overserviced (t.app.meals i).stats ≡ false)
            × (overserviced (t.app.customers i).stats ≡ false)
      each i h =
          let (c, e, b, e') = inv.paired.to i h in
          let (one, le, le_meal, _) = served_once c i (b, h, e', e) in
          let (m, e, b, e') = inv.paired.back i h in
          let (one', le', _, _) = served_once i m (h, b, e, e') in
          (
            few (t.app.meals i).stats.num_picked_up (t.app.meals i).stats.num_completed
                (omega (arith, one)) (omega (arith, one, le_meal)),
            few (t.app.customers i).stats.num_picked_up (t.app.customers i).stats.num_completed
                (omega (arith, one')) (omega (arith, one', le')),
          )
