-- ===== src/Ubler/Requests/Tests.antt =====
-- Runs on three requests, and the theorems applied there.
use cs61_psets.Common.{ℕ, ◌+◌, ◌≡◌, refl, true, false, none, some, arith, ltb, min, if◌then◌else◌}
use cs61_psets.Ubler.{App, init_meal, init_customer, complete_customer}
use cs61_psets.Ubler.Requests.{
  Positions, from_start, receive_loop, receive_request, swap_meals, fix_mismatch, fill_requests,
  shuffle, init_requests,
}
use cs61_psets.Ubler.Requests.Receive.{Result, done_customer, done_meal, receive_request-Result}
use cs61_psets.Ubler.Requests.Pairs.{
  Paired, customer_of, init_requests-Paired, fix_mismatch-swap_meals,
}

abbrev blank : App
blank = record { meals = λ m. init_meal; customers = λ c. init_customer; restaurants = λ r. none }

abbrev rand : ℕ → ℕ
rand i = 7 + i

abbrev filled : App
filled = elim (fill_requests rand 2 5 3 blank) [ some a ↦ a | none ↦ blank ]

-- `init_requests` on three requests: the customer of the meal 2
swapped_customer :
    elim (init_requests rand rand 3 2 5 blank) [ some a ↦ customer_of a 2 | none ↦ none ] ≡ some 0
unfolding init_requests fill_requests shuffle swap_meals
swapped_customer = refl

-- The customers 1 and 2 are completed and the customer 0 is not; from the position 1 the search
-- goes on at 1 after its turn, and finds nobody.
misses_zero : receive_loop 5 (λ c. ltb 0 c) 2 1 false ≡ (none, 2)
unfolding receive_loop
misses_zero = refl

filled-Paired : (a' : App) × (init_requests rand rand 3 2 5 blank ≡ some a') × Paired 3 a'
filled-Paired = init_requests-Paired rand rand 3 2 5 blank (omega arith) (omega arith)

abbrev start : Positions
start = record { meal_pos = 0; customer_pos = 3 }

abbrev one_done : App
one_done = complete_customer blank 0

receive_request-Result_example :
    let ((is_customer, r), pos') = receive_request one_done 3 true true start in
    if is_customer
    then Result (done_customer one_done) 3 (min 1 (from_start 3 start.customer_pos)) r
    else Result (done_meal one_done) 3 (min 1 (from_start 3 start.meal_pos)) r
receive_request-Result_example =
    receive_request-Result one_done 3 true true start (omega arith) (omega arith)

init_requests-Paired_example :
    (a' : App) × (init_requests rand rand 3 2 5 blank ≡ some a') × Paired 3 a'
init_requests-Paired_example =
    init_requests-Paired rand rand 3 2 5 blank (omega arith) (omega arith)

fix_mismatch-swap_meals_example :
    (b : App) × (a' : App) × (swap_meals filled-Paired.0 0 2 false ≡ some b)
    × (fix_mismatch b 0 ≡ some a')
    × ((m : ℕ) → a'.meals m ≡ filled-Paired.0.meals m)
    × (a'.customers ≡ filled-Paired.0.customers)
fix_mismatch-swap_meals_example =
    fix_mismatch-swap_meals filled-Paired.0 3 0 2 filled-Paired.2 (omega arith) (omega arith)
      (λ e. omega (arith, e))
