-- ===== src/Ubler/Requests/Receive.antt =====
-- What `receive_request` finds.
use cs61_psets.Common.{
  ℕ, zero, suc, ◌+◌, ◌*◌, ◌≤◌, ◌<◌, ◌≡◌, ◌∙◌, ap, ◌⊎◌, inl, inr, arith, Bool, true, false,
  Bool-cases, Option, none, some, ltb, ◌==◌, not, if◌then◌else◌, min,
}
use cs61_psets.Ubler.{App}
use cs61_psets.Ubler.Requests.{Positions, from_start, receive_loop, receive_request}

-- the loop's result: a request that is not completed, or all from `from` on are
abbrev pub Result : (completed : ℕ → Bool) (requests from : ℕ) → Option ℕ → Type 0
Result completed requests from none = (i : ℕ) → from ≤ i → i < requests → completed i ≡ true
Result completed requests from (some i) = (i < requests) × (completed i ≡ false)

first_cases : (i pos : ℕ) → pos ≤ i → (i ≡ pos) ⊎ (pos + 1 ≤ i)
first_cases i pos h = omega arith

-- one request more in front
extend :
    (completed : ℕ → Bool) (requests pos : ℕ) (r : Option ℕ)
    → completed pos ≡ true
    → Result completed requests (pos + 1) r
    → Result completed requests pos r
extend completed requests pos none done h = λ i low high. elim (first_cases i pos low) [
  | inl e ↦ ap completed e ∙ done
  | inr later ↦ h i later high
]
extend completed requests pos (some i) done h = h

weaken :
    (completed : ℕ → Bool) (requests from from' : ℕ) (r : Option ℕ)
    → from ≤ from'
    → Result completed requests from r
    → Result completed requests from' r
weaken completed requests from from' none low h = λ i low' high. h i (omega arith) high
weaken completed requests from from' (some i) low h = h

module _ (completed : ℕ → Bool) (requests : ℕ) where
  loop_second :
      (fuel pos : ℕ)
      → requests < fuel + pos
      → Result completed requests pos (receive_loop fuel completed requests pos true).0
  unfolding receive_loop
  loop_second zero pos h = λ i low high. absurd (omega arith)
  loop_second (suc fuel) pos h = elim (Bool-cases (ltb pos requests)) [
    | inr e ↦ rw e (λ i low high. absurd (ground (arith, e)))
    | inl e ↦ elim (Bool-cases (completed pos)) [
      | inr undone ↦ rw (e, undone) (ground (arith, e), undone)
      | inl done ↦
          let rest =
            extend completed requests pos (receive_loop fuel completed requests (pos + 1) true).0
              done (loop_second fuel (pos + 1) (omega arith)) in
          ground (arith, e, done, rest)
    ]
  ]

  first_of :
      (pos : ℕ) (r : Option ℕ)
      → completed pos ≡ true
      → Result completed requests 1 r
      → Result completed requests (min 1 pos) r
  first_of zero r done h =
      extend completed requests 0 r done (weaken completed requests 1 (0 + 1) r (omega arith) h)
  first_of (suc pos) r done h = weaken completed requests 1 (min 1 (suc pos)) r (omega arith) h

  loop_first :
      (fuel pos : ℕ)
      → pos < requests
      → 2 * requests ≤ fuel + pos
      → Result completed requests (min 1 pos) (receive_loop fuel completed requests pos false).0
  unfolding receive_loop
  loop_first zero pos before h = absurd (omega arith)
  loop_first (suc fuel) pos before h =
      let test : ltb pos requests ≡ true = ground arith in
      elim (Bool-cases (completed pos)) [
        | inr undone ↦ rw (test, undone) (before, undone)
        | inl done ↦ elim (Bool-cases (pos + 1 == requests)) [
          | inl last ↦
              rw (test, done, last)
                (first_of pos (receive_loop fuel completed requests 1 true).0 done
                  (loop_second fuel 1 (ground (arith, last))))
          | inr more ↦
              rw (test, done, more)
                (first_of pos (receive_loop fuel completed requests (pos + 1) false).0 done (
                  weaken completed requests (min 1 (pos + 1)) 1
                    (receive_loop fuel completed requests (pos + 1) false).0 (omega arith)
                    (loop_first fuel (pos + 1) (ground (arith, more)) (omega arith))))
        ]
      ]

  -- the loop from a position that `receive_request` leaves
  found_from :
      (pos : ℕ)
      → pos ≤ requests
      → Result completed requests
          (min 1 (from_start requests pos))
          (receive_loop (2 * requests + 1) completed requests (from_start requests pos) false).0
  found_from pos h = elim (start_cases pos h) [
    | inl before ↦ loop_first (2 * requests + 1) (from_start requests pos) before (omega arith)
    | inr (z, e) ↦ rw (z, e) (unfold receive_loop in (λ i low high. absurd (omega arith)))
  ]
    where
      start_cases :
          (pos : ℕ)
          → pos ≤ requests
          → (from_start requests pos < requests) ⊎ ((requests ≡ 0) × (pos ≡ 0))
      start_cases pos h = ground arith

-- whether a customer, or a meal, is completed
abbrev pub done_customer : App → ℕ → Bool
done_customer a c = not ((a.customers c).stats.num_completed == 0)

abbrev pub done_meal : App → ℕ → Bool
done_meal a m = not ((a.meals m).stats.num_completed == 0)

-- `receive_request`, with both positions at most the number of requests, returns a customer or a
-- meal among the requests that is not completed, or else each customer, or each meal, from number
-- 1 on is completed; number 0 is too, if the search began there.
pub receive_request-Result :
    (a : App) (requests : ℕ) (deliver coin : Bool) (pos : Positions)
    → pos.customer_pos ≤ requests
    → pos.meal_pos ≤ requests
    → let ((is_customer, r), pos') = receive_request a requests deliver coin pos in
      if is_customer
      then Result (done_customer a) requests (min 1 (from_start requests pos.customer_pos)) r
      else Result (done_meal a) requests (min 1 (from_start requests pos.meal_pos)) r
unfolding receive_request
receive_request-Result a requests true true pos h h' =
    found_from (done_customer a) requests pos.customer_pos h
receive_request-Result a requests true false pos h h' =
    found_from (done_meal a) requests pos.meal_pos h'
receive_request-Result a requests false coin pos h h' =
    found_from (done_customer a) requests pos.customer_pos h

module _ (completed : ℕ → Bool) (requests : ℕ) where
  loop-position :
      (fuel pos : ℕ) (looped : Bool)
      → pos ≤ requests
      → (receive_loop fuel completed requests pos looped).1 ≤ requests
  unfolding receive_loop
  loop-position zero pos looped h = h
  loop-position (suc fuel) pos looped h = elim (Bool-cases (ltb pos requests)) [
    | inr e ↦ rw e h
    | inl e ↦
        let inside : pos < requests = ground (arith, e) in
        ground (
          arith,
          inside,
          loop-position fuel 1 true (omega arith),
          loop-position fuel (pos + 1) looped (omega arith),
        )
  ]

from_start-le : (requests pos : ℕ) → pos ≤ requests → from_start requests pos ≤ requests
from_start-le requests pos h = ground arith

-- the positions stay at most the number of requests
pub receive_request-position :
    (a : App) (requests : ℕ) (deliver coin : Bool) (pos : Positions)
    → pos.customer_pos ≤ requests
    → pos.meal_pos ≤ requests
    → ((receive_request a requests deliver coin pos).1.customer_pos ≤ requests)
      × ((receive_request a requests deliver coin pos).1.meal_pos ≤ requests)
unfolding receive_request
receive_request-position a requests true true pos h h' = (
  loop-position (done_customer a) requests (2 * requests + 1) (from_start requests pos.customer_pos)
      false (from_start-le requests pos.customer_pos h),
  h',
)
receive_request-position a requests true false pos h h' = (
  h,
  loop-position (done_meal a) requests (2 * requests + 1) (from_start requests pos.meal_pos) false
      (from_start-le requests pos.meal_pos h'),
)
receive_request-position a requests false coin pos h h' = (
  loop-position (done_customer a) requests (2 * requests + 1) (from_start requests pos.customer_pos)
      false (from_start-le requests pos.customer_pos h),
  h',
)
