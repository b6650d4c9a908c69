-- ===== src/Ubler/Drivers/Delivery.antt =====
-- The pick-up and the delivery keep the counters and the lock of every pair right.
use cs61_psets.Common.{ℕ, ◌<◌, ◌≡◌, refl, inl, inr, arith, true, Bool-cases, some}
use cs61_psets.Ubler.{
  same, App, Driver, complete_customer, complete_meal, drop_off_own_meal, drop_off_own_customer,
}
use cs61_psets.Ubler.Drivers.{
  Trip, Point, receiving, picking, carrying, dropping, driver_pick, driver_drop, driver_drop_rest,
}
use cs61_psets.Ubler.Drivers.Invariant.{Pair, Pair-cases, Serves}
use cs61_psets.Ubler.Drivers.Sections.{if_one-le, moved}

module _ (n k i : ℕ) (a : App) (d : Driver) (points : ℕ → Point) (below : i < k) where
  -- the pick-up of a customer or of a meal
  pub pick-Serves :
      (t : Trip)
      → points i ≡ picking t
      → Pair a n t.customer t.meal
      → let (a', d', p) = driver_pick a d t in Serves n k i a points a' p
  unfolding driver_pick
  pick-Serves t e pair = elim (Bool-cases t.is_customer) [
    | inl by_customer ↦ rw by_customer (
      record { meal = λ c. ground arith; customer = λ m. refl; restaurant = λ m. refl },
      (pair.0, pair.1, ground (arith, pair.2), pair.3),
      λ c m q v.
          let shift = moved n k i a d points below c (picking t) (carrying t) e in
          record {
            lock = ground (arith, v.lock, shift.0, if_one-le (a.customers c).locked);
            once = ground (arith, v.once, shift.1);
            under_way = ground (arith, v.under_way, shift.2, shift.4);
            together = ground (arith, v.together, shift.4, shift.5);
          },
    )
    | inr by_meal ↦ rw by_meal (
      record {
        meal = λ c. ground arith;
        customer = λ m. ground arith;
        restaurant = λ m. ground arith;
      },
      (pair.0, pair.1, ground (arith, pair.2), ground (arith, pair.3)),
      λ c m q v.
          let shift = moved n k i a d points below c (picking t) (carrying t) e in
          let same = Pair-cases a n c m t q pair in
          record {
            lock = ground (arith, v.lock, shift.0, if_one-le (a.customers c).locked);
            once = ground (arith, v.once, shift.1, same);
            under_way = ground (arith, v.under_way, shift.2, shift.4, same);
            together = ground (arith, v.together, shift.4, shift.5, same);
          },
    )
  ]

  -- the first of the two is delivered, by the customer's way or the meal's
  pub drop-Serves :
      (t : Trip)
      → points i ≡ carrying t
      → Pair a n t.customer t.meal
      → let (a', d') = driver_drop a d t in Serves n k i a points a' (dropping t)
  unfolding driver_drop
  drop-Serves t e pair = elim (Bool-cases t.is_customer) [
    | inl by_customer ↦ rw by_customer (
      record { meal = λ c. ground arith; customer = λ m. refl; restaurant = λ m. refl },
      (pair.0, pair.1, ground (arith, pair.2), pair.3),
      λ c m q v.
          let shift = moved n k i a d points below c (carrying t) (dropping t) e in
          record {
            lock = ground (arith, v.lock, shift.0);
            once = ground (arith, v.once, shift.1);
            under_way = ground (arith, v.under_way, shift.2, shift.4, by_customer);
            together = ground (arith, v.together, shift.4, shift.5, by_customer);
          },
    )
    | inr by_meal ↦ rw by_meal (
      record { meal = λ c. refl; customer = λ m. ground arith; restaurant = λ m. ground arith },
      (pair.0, pair.1, pair.2, ground (arith, pair.3)),
      λ c m q v.
          let shift = moved n k i a d points below c (carrying t) (dropping t) e in
          let same = Pair-cases a n c m t q pair in
          record {
            lock = ground (arith, v.lock, shift.0);
            once = ground (arith, v.once, shift.1);
            under_way = ground (arith, v.under_way, shift.2, shift.4, by_meal);
            together = ground (arith, v.together, shift.4, shift.5, same, by_meal);
          },
    )
  ]

  -- the other one of the two is delivered
  pub rest-Serves :
      (t : Trip)
      → points i ≡ dropping t
      → Pair a n t.customer t.meal
      → (a' : App) × (driver_drop_rest a t ≡ some a') × Serves n k i a points a' receiving
  unfolding driver_drop_rest drop_off_own_meal drop_off_own_customer
  rest-Serves t e pair = elim (Bool-cases t.is_customer) [
    | inl by_customer ↦ (
      complete_meal a t.meal,
      rw (by_customer, pair.2) refl,
      (
        record { meal = λ c. refl; customer = λ m. ground arith; restaurant = λ m. ground arith },
        tt,
        λ c m q v.
            let shift = moved n k i a d points below c (dropping t) receiving e in
            let same = Pair-cases a n c m t q pair in
            record {
              lock = ground (arith, v.lock, shift.0);
              once = ground (arith, v.once, shift.1);
              under_way = ground (arith, v.under_way, shift.2, shift.4, by_customer);
              together = ground (arith, v.together, shift.4, shift.5, same, by_customer);
            },
      ),
    )
    | inr by_meal ↦
        let is : same (a.meals t.meal).customer (some t.customer) ≡ true =
          rw (pair.3) (ground arith) in
        (
          complete_customer a t.customer,
          rw (by_meal, is) refl,
          (
            record { meal = λ c. ground arith; customer = λ m. refl; restaurant = λ m. refl },
            tt,
            λ c m q v.
                let shift = moved n k i a d points below c (dropping t) receiving e in
                record {
                  lock = ground (arith, v.lock, shift.0);
                  once = ground (arith, v.once, shift.1);
                  under_way = ground (arith, v.under_way, shift.2, shift.4, by_meal);
                  together = ground (arith, v.together, shift.4, shift.5, by_meal);
                },
          ),
        )
  ]
