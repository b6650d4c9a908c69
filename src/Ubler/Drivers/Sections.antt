-- ===== src/Ubler/Drivers/Sections.antt =====
-- Each section of `driver_thread` keeps the counters and the lock of every pair right.
use cs61_psets.Common.{
  ℕ, ◌+◌, ◌≤◌, ◌<◌, ◌≡◌, refl, sym, ◌∙◌, ap, inl, inr, arith, Bool, true, false, Bool-cases, some,
  ◌&&◌, not, put, sum_to, sum_to-put, sum_to-le,
}
use cs61_psets.Ubler.{App, Driver}
use cs61_psets.Ubler.Requests.{if_one}
use cs61_psets.Ubler.Requests.Pairs.{Paired}
use cs61_psets.Ubler.Drivers.{
  Trip, Point, receiving, received, locking, testing, picking, picked_up, set_locked, driver_look,
  driver_lock, driver_test,
}
use cs61_psets.Ubler.Drivers.Invariant.{
  holds, goes, carries, late_customer, late_meal, Pair, Ready, goes-le-holds, Pair-cases, Serves,
}

pub if_one-le : (b : Bool) → if_one b ≤ 1
if_one-le b = ground arith

-- a point at which the driver neither has a lock nor carries anything
abbrev pub Idle : Point → Type 0
Idle p = (c : ℕ) → holds c p + goes c p + carries c p + late_customer c p + late_meal c p ≡ 0

module _ (n k i : ℕ) (a : App) (d : Driver) (points : ℕ → Point) (below : i < k) where
  pub moved :
      (c : ℕ) (old p : Point)
      → points i ≡ old
      → (sum_to (holds c) k (put points i p) + holds c old ≡ sum_to (holds c) k points + holds c p)
        × (sum_to (goes c) k (put points i p) + goes c old ≡ sum_to (goes c) k points + goes c p)
        × (sum_to (carries c) k (put points i p) + carries c old
            ≡ sum_to (carries c) k points + carries c p)
        × (sum_to (goes c) k (put points i p) ≤ sum_to (holds c) k (put points i p))
        × (sum_to (late_customer c) k (put points i p) + late_customer c old
            ≡ sum_to (late_customer c) k points + late_customer c p)
        × (sum_to (late_meal c) k (put points i p) + late_meal c old
            ≡ sum_to (late_meal c) k points + late_meal c p)
  moved c old p e = (
    ap (λ q. sum_to (holds c) k (put points i p) + holds c q) (sym e)
        ∙ sum_to-put (holds c) k points i p below,
    ap (λ q. sum_to (goes c) k (put points i p) + goes c q) (sym e)
        ∙ sum_to-put (goes c) k points i p below,
    ap (λ q. sum_to (carries c) k (put points i p) + carries c q) (sym e)
        ∙ sum_to-put (carries c) k points i p below,
    sum_to-le (goes c) (holds c) (goes-le-holds c) k (put points i p),
    ap (λ q. sum_to (late_customer c) k (put points i p) + late_customer c q) (sym e)
        ∙ sum_to-put (late_customer c) k points i p below,
    ap (λ q. sum_to (late_meal c) k (put points i p) + late_meal c q) (sym e)
        ∙ sum_to-put (late_meal c) k points i p below,
  )

  -- a section that leaves the shared state alone, between points outside of the lock
  pub Idle-Serves :
      (old p : Point) → points i ≡ old → Idle old → Idle p → Ready a n p → Serves n k i a points a p
  Idle-Serves old p e idle idle' r = (
    record { meal = λ c. refl; customer = λ m. refl; restaurant = λ m. refl },
    r,
    λ c m q v.
        let shift = moved c old p e in
        record {
          lock = omega (arith, v.lock, shift, idle c, idle' c);
          once = omega (arith, v.once, shift, idle c, idle' c);
          under_way = omega (arith, v.under_way, shift, idle c, idle' c);
          together = omega (arith, v.together, shift, idle c, idle' c);
        },
  )

  pub lock-Serves :
      (t : Trip)
      → points i ≡ locking t
      → Pair a n t.customer t.meal
      → Serves n k i a points (driver_lock a t).0 (driver_lock a t).1
  unfolding driver_lock
  lock-Serves t e pair = elim (Bool-cases (a.customers t.customer).locked) [
    | inl held ↦ rw held (Idle-Serves (locking t) (locking t) e (λ c. refl) (λ c. refl) pair)
    | inr free ↦ rw free (
      record { meal = λ c. ground arith; customer = λ m. refl; restaurant = λ m. refl },
      (pair.0, pair.1, ground (arith, pair.2), pair.3),
      λ c m q v.
          let shift = moved c (locking t) (testing t) e in
          record {
            lock = ground (arith, v.lock, free, shift.0);
            once = ground (arith, v.once, shift.1);
            under_way = ground (arith, v.under_way, shift.2, shift.4);
            together = ground (arith, v.together, shift.4, shift.5);
          },
    )
  ]

  go-Serves :
      (t : Trip)
      → points i ≡ testing t
      → Pair a n t.customer t.meal
      → (a.customers t.customer).stats.num_picked_up ≡ 0
      → (a.meals t.meal).stats.num_picked_up ≡ 0
      → Serves n k i a points a (picking t)
  go-Serves t e pair z z' = (
    record { meal = λ c. refl; customer = λ m. refl; restaurant = λ m. refl },
    pair,
    λ c m q v.
        let shift = moved c (testing t) (picking t) e in
        let lock : sum_to (holds c) k (put points i (picking t)) ≡ if_one (a.customers c).locked =
          ground (arith, v.lock, shift.0) in
        record {
          lock = lock;
          once = elim (Pair-cases a n c m t q pair) [
            | inl (ec, em) ↦ omega (
              arith,
              lock,
              shift.3,
              if_one-le (a.customers c).locked,
              ap (λ c. (a.customers c).stats.num_picked_up) ec ∙ z,
              ap (λ m. (a.meals m).stats.num_picked_up) em ∙ z',
            )
            | inr (nc, nm) ↦ ground (arith, v.once, shift.1, nc)
          ];
          under_way = ground (arith, v.under_way, shift.2, shift.4);
          together = ground (arith, v.together, shift.4, shift.5);
        },
  )

  unlock-Serves :
      (t : Trip)
      → points i ≡ testing t
      → Pair a n t.customer t.meal
      → Serves n k i a points (set_locked a t.customer false) receiving
  unlock-Serves t e pair = (
    record { meal = λ c. ground arith; customer = λ m. refl; restaurant = λ m. refl },
    tt,
    λ c m q v.
        let shift = moved c (testing t) receiving e in
        record {
          lock = ground (arith, v.lock, shift.0, if_one-le (a.customers c).locked);
          once = ground (arith, v.once, shift.1);
          under_way = ground (arith, v.under_way, shift.2, shift.4);
          together = ground (arith, v.together, shift.4, shift.5);
        },
  )

  -- from the request to the lock
  pub look-Serves :
      (b : Bool) (r : ℕ)
      → points i ≡ received b r
      → r < n
      → Paired n a
      → ((m : ℕ) → m < n → (r : ℕ) × ((a.meals m).restaurant ≡ some r))
      → (p : Point) × (driver_look a b r ≡ some p) × Serves n k i a points a p
  unfolding driver_look
  look-Serves true c e h v cooked =
      let (m, e1, b1, e2) = v.back c h in
      let (r, e3) = cooked m b1 in
      let (by_customer, by_meal) = picked_up a c m in
      let t : Trip = record {
        is_customer = true;
        customer = c;
        meal = m;
        src = (a.customers c).location;
        dest = a.restaurants r;
      } in
      elim (Bool-cases (by_customer && by_meal)) [
        | inl gone ↦ (
          receiving,
          rw (e1, gone) refl,
          Idle-Serves (received true c) receiving e (λ c. refl) (λ c. refl) tt,
        )
        | inr there ↦ (
          locking t,
          rw (e1, there, e3) refl,
          Idle-Serves (received true c) (locking t) e (λ c. refl) (λ c. refl) (h, b1, e1, e2),
        )
      ]
  look-Serves false m e h v cooked =
      let (c, e1, b1, e2) = v.to m h in
      let (r, e3) = cooked m h in
      let (by_customer, by_meal) = picked_up a c m in
      let t : Trip = record {
        is_customer = false;
        customer = c;
        meal = m;
        src = a.restaurants r;
        dest = (a.customers c).location;
      } in
      elim (Bool-cases (by_customer && by_meal)) [
        | inl gone ↦ (
          receiving,
          rw (e1, gone) refl,
          Idle-Serves (received false m) receiving e (λ c. refl) (λ c. refl) tt,
        )
        | inr there ↦ (
          locking t,
          rw (e1, there, e3) refl,
          Idle-Serves (received false m) (locking t) e (λ c. refl) (λ c. refl) (b1, h, e2, e1),
        )
      ]

  pub test-Serves :
      (t : Trip)
      → points i ≡ testing t
      → Pair a n t.customer t.meal
      → let (a', d', p) = driver_test a d t in Serves n k i a points a' p
  unfolding driver_test
  test-Serves t e pair =
      let (by_customer, by_meal) = picked_up a t.customer t.meal in
      elim (Bool-cases (not by_customer && not by_meal)) [
        | inl ok ↦ rw ok (go-Serves t e pair (ground (arith, ok)) (ground (arith, ok)))
        | inr late ↦ rw late (unlock-Serves t e pair)
      ]
