-- ===== src/Ubler/Drivers/Tests.antt =====
-- Two drivers and one request: the first one carries the customer, and the second is too late.
use cs61_psets.Common.{
  ℕ, zero, suc, ◌+◌, ◌≤◌, ◌<◌, ◌≡◌, ◌⊎◌, refl, arith, inl, inr, true, false, Bool-cases, Option,
  Option-cases, some-injective, none, some, List, [], ◌∷◌, ltb, put, if◌then◌else◌, ◌>>=◌,
}
use mathlib.Core.Path.{subst}
use cs61_psets.Ubler.{App, Driver, init_meal, init_customer}
use cs61_psets.Ubler.Requests.{Positions, receive_request}
use cs61_psets.Ubler.Drivers.{
  Point, receiving, returned, System, driver_section, section, Reach, here, next, set_up,
}
use cs61_psets.Ubler.Drivers.Invariant.{Pair}
use cs61_psets.Ubler.Drivers.Once.{
  pick_ups, IsDropping, served_once, driver_section_returns, returned-over,
}

abbrev blank : App
blank = record { meals = λ m. init_meal; customers = λ c. init_customer; restaurants = λ r. none }

abbrev rand : ℕ → ℕ
rand i = 7 + i

-- a default for what the tests below show to be there
abbrev or_blank : Option (Option System) → System
or_blank (some (some s)) = s
or_blank _ = record {
  app = blank;
  positions = record { meal_pos = 0; customer_pos = 0 };
  drivers = λ i. record {
    location = none;
    num_meals_picked_up = 0;
    num_customers_picked_up = 0;
    num_meals_delivered = 0;
    num_customers_delivered = 0;
  };
  points = λ i. receiving;
}

abbrev start : System
unfolding set_up
start = or_blank (set_up rand rand rand rand 1 1 2 false 3 blank)

starts : set_up rand rand rand rand 1 1 2 false 3 blank ≡ some (some start)
unfolding set_up
starts = refl

-- The sections of a schedule of drivers, each with the coin `true`.
abbrev follow : System → List ℕ → Option System
unfolding driver_section
follow s [] = some s
follow s (i ∷ is) = do
  (a, pos, d, p) ← driver_section 1 true true s.app s.positions (s.drivers i) (s.points i)
  let s' : System = record {
    app = a;
    positions = pos;
    drivers = put s.drivers i d;
    points = put s.points i p;
  }
  if ltb i 2 then follow s' is else none

follow-Reach :
    (s t u : System) (is : List ℕ) → Reach 1 2 true s t → follow t is ≡ some u → Reach 1 2 true s u
unfolding follow
follow-Reach s t u [] r e = subst (Reach 1 2 true s) (some-injective _ _ e) r
follow-Reach s t u (i ∷ is) r e =
    elim (Option-cases (driver_section 1 true true t.app t.positions (t.drivers i) (t.points i))) [
      | inl fails ↦ absurd (cc (e, fails))
      | inr ((a, pos, d, p), runs) ↦
          let t' : System = record {
            app = a;
            positions = pos;
            drivers = put t.drivers i d;
            points = put t.points i p;
          } in
          let rest : (if ltb i 2 then follow t' is else none) ≡ some u = rw runs at e in
          elim (Bool-cases (ltb i 2)) [
            | inl below ↦
                follow-Reach s t' u is
                  (next r (section i true a pos d p (ground (arith, below)) runs refl))
                  (rw below at rest)
            | inr above ↦ absurd (cc (rest, above))
          ]
    ]

abbrev or_start : Option System → System
or_start (some s) = s
or_start none = start

-- the driver 1 waits at the lock while the driver 0 goes to the customer
abbrev under_way : System
unfolding driver_section
under_way = or_start (follow start (0 ∷ 1 ∷ 0 ∷ 1 ∷ 0 ∷ 1 ∷ 0 ∷ 0 ∷ 0 ∷ []))

abbrev over : System
unfolding driver_section
over = or_start (follow under_way (1 ∷ 1 ∷ 0 ∷ 0 ∷ 1 ∷ []))

under_way-Reach : Reach 1 2 true start under_way
unfolding follow start receive_request
under_way-Reach =
    follow-Reach start start under_way (0 ∷ 1 ∷ 0 ∷ 1 ∷ 0 ∷ 1 ∷ 0 ∷ 0 ∷ 0 ∷ []) here refl

over-Reach : Reach 1 2 true start over
unfolding follow start receive_request
over-Reach = follow-Reach start under_way over (1 ∷ 1 ∷ 0 ∷ 0 ∷ 1 ∷ []) under_way-Reach refl

over_returned : (i : ℕ) → i < 2 → over.points i ≡ returned
unfolding over start receive_request
over_returned zero h = refl
over_returned (suc zero) h = refl
over_returned (suc (suc i)) h = absurd (omega arith)

under_way-Pair : Pair under_way.app 1 0 0
unfolding under_way start receive_request
under_way-Pair = (omega arith, omega arith, refl, refl)

over-Pair : Pair over.app 1 0 0
unfolding over start receive_request
over-Pair = (omega arith, omega arith, refl, refl)

served_once_example :
    (pick_ups under_way.app 0 0 ≤ 1)
    × ((under_way.app.customers 0).stats.num_completed ≤ pick_ups under_way.app 0 0)
    × ((under_way.app.meals 0).stats.num_completed ≤ pick_ups under_way.app 0 0)
    × (((under_way.app.meals 0).stats.num_completed
          ≡ (under_way.app.customers 0).stats.num_completed)
        ⊎ ((i : ℕ) × (i < 2) × IsDropping 0 (under_way.points i)))
served_once_example =
    served_once rand rand rand rand 1 1 2 3 blank start true starts under_way under_way-Reach 0 0
      under_way-Pair

driver_section_returns_example :
    (x : App × Positions × Driver × Point) × (driver_section 1 true false under_way.app
        under_way.positions
        (under_way.drivers 1)
        (under_way.points 1)
      ≡ some x)
driver_section_returns_example =
    driver_section_returns rand rand rand rand 1 1 2 3 blank start true starts under_way
      under_way-Reach 1 false (omega arith)

returned-over_example :
    ((over.app.customers 0).stats.num_completed ≡ pick_ups over.app 0 0)
    × ((over.app.meals 0).stats.num_completed ≡ pick_ups over.app 0 0)
    × ((over.app.customers 0).locked ≡ false)
returned-over_example =
    returned-over rand rand rand rand 1 1 2 3 blank start true starts over over-Reach over_returned
      0 0 over-Pair
