-- ===== src/Ubler/Requests/Pairs.antt =====
-- Each meal has its customer and each customer their meal: `init_requests` sets that up, and
-- `fix_mismatch` restores it.
use cs61_psets.Common.{
  ℕ, zero, suc, ◌+◌, ◌*◌, ◌%◌, ◌≤◌, ◌<◌, ◌≡◌, refl, sym, ap, ◌∙◌, ◌⊎◌, inl, inr, arith, true, false,
  Option, some, some-injective, bind-inv, bind-some, ◌==◌, if◌then◌else◌, last_cases,
}
use cs61_psets.Ubler.{
  App, Meal, init_meal, init_customer, set_meal, set_customer, meal_set_customer, customer_set_meal,
}
use cs61_psets.Ubler.Requests.{
  swap_meals, remainder, fill_requests, shuffle, init_requests, fix_mismatch,
}

abbrev pub customer_of : App → ℕ → Option ℕ
customer_of a m = (a.meals m).customer

abbrev pub meal_of : App → ℕ → Option ℕ
meal_of a c = (a.customers c).meal

-- below `n` the two functions are each other's inverse
pub record Inverse (n : ℕ) (f g : ℕ → Option ℕ) : Type 0 where
  pub to : (i : ℕ) → i < n → (j : ℕ) × (f i ≡ some j) × (j < n) × (g j ≡ some i)
  pub back : (j : ℕ) → j < n → (i : ℕ) × (g j ≡ some i) × (i < n) × (f i ≡ some j)

abbrev pub Paired : ℕ → App → Type 0
Paired n a = Inverse n (customer_of a) (meal_of a)

-- one direction of an exchange of the values at two places
exchange_to :
    (n : ℕ) (f g f' g' : ℕ → Option ℕ) (i1 i2 j1 j2 : ℕ)
    → Inverse n f g
    → (f i1 ≡ some j1) × (g j1 ≡ some i1) × (j1 < n)
    → (f i2 ≡ some j2) × (g j2 ≡ some i2) × (j2 < n)
    → ((i : ℕ) → f' i ≡ (if i == i2 then some j1 else if i == i1 then some j2 else f i))
    → ((j : ℕ) → g' j ≡ (if j == j2 then some i1 else if j == j1 then some i2 else g j))
    → (i : ℕ) → i < n
    → (j : ℕ) × (f' i ≡ some j) × (j < n) × (g' j ≡ some i)
exchange_to n f g f' g' i1 i2 j1 j2 v (f1, g1, b1) (f2, g2, b2) new_f new_g i h =
    elim (place_cases i i1 i2) [
      | inl e ↦ (j1, ground (arith, new_f i, e), b1, ground (arith, new_g j1, g1, g2, e))
      | inr (inl (ne, e)) ↦ (j2, ground (arith, new_f i, ne, e), b2, ground (arith, new_g j2, e))
      | inr (inr (ne, ne')) ↦
          let (j, fi, b, gj) = v.to i h in
          (j, ground (arith, new_f i, ne, ne', fi), b, ground (arith, new_g j, gj, g1, g2, ne, ne'))
    ]
  where
    place_cases :
        (i i1 i2 : ℕ) → (i ≡ i2) ⊎ (((i ≡ i2 → ⊥) × (i ≡ i1)) ⊎ ((i ≡ i2 → ⊥) × (i ≡ i1 → ⊥)))
    place_cases i i1 i2 = ground arith

flip : (n : ℕ) (f g : ℕ → Option ℕ) → Inverse n f g → Inverse n g f
flip n f g v = record { to = v.back; back = v.to }

-- `swap_meals` with `preserveValidity` on paired requests returns, and they are paired again.
pub swap_meals-Paired :
    (a : App) (n m1 m2 : ℕ)
    → Paired n a
    → m1 < n
    → m2 < n
    → (a' : App) × (swap_meals a m1 m2 true ≡ some a') × Paired n a'
unfolding swap_meals
swap_meals-Paired a n m1 m2 v h1 h2 =
    let (c1, e1, b1, g1) = v.to m1 h1 in
    let (c2, e2, b2, g2) = v.to m2 h2 in
    let swapped = meal_set_customer (meal_set_customer a m1 (some c2)) m2 (some c1) in
    let a' = customer_set_meal (customer_set_meal swapped c1 (some m2)) c2 (some m1) in
    let new_f : (m : ℕ)
        → customer_of a' m
          ≡ (if m == m2 then some c1 else if m == m1 then some c2 else customer_of a m) =
      λ m. ground arith in
    let new_g : (c : ℕ)
        → meal_of a' c ≡ (if c == c2 then some m1 else if c == c1 then some m2 else meal_of a c) =
      λ c. ground arith in
    (
      a',
      rw (e1, e2) refl,
      record {
        to =
            exchange_to n (customer_of a) (meal_of a) (customer_of a') (meal_of a') m1 m2 c1 c2 v
              (e1, g1, b1) (e2, g2, b2) new_f new_g;
        back =
            exchange_to n (meal_of a) (customer_of a) (meal_of a') (customer_of a') c1 c2 m1 m2
              (flip n (customer_of a) (meal_of a) v) (g1, e1, h1) (g2, e2, h2) new_g new_f;
      },
    )

remainder-some : (x m r : ℕ) → remainder x m ≡ some r → r ≡ x % m
remainder-some x m r e = ground (arith, e)

module _ (rand : ℕ → ℕ) (num_restaurants locations : ℕ) (a : App) where
  -- the requests that the first loop of `init_requests` makes where it does not fault
  unfoldable pub made : (n : ℕ) → App
  made zero = a
  made (suc n) =
      set_customer
        (set_meal (made n) n (record init_meal {
          restaurant = some (rand (2 * n) % num_restaurants);
          customer = some n;
        }))
        n (record init_customer { meal = some n; location = some (rand (2 * n + 1) % locations) })

  fill-runs :
      (n : ℕ)
      → 0 < num_restaurants
      → 0 < locations
      → fill_requests rand num_restaurants locations n a ≡ some (made n)
  unfolding fill_requests made
  fill-runs zero r l = refl
  fill-runs (suc n) r l =
      let some_restaurant : (num_restaurants == 0) ≡ false = ground (arith, r) in
      let some_location : (locations == 0) ≡ false = ground (arith, l) in
      rw (fill-runs n r l, some_restaurant, some_location) refl

  pub fill-made :
      (n : ℕ) {b : App} → fill_requests rand num_restaurants locations n a ≡ some b → b ≡ made n
  unfolding fill_requests made
  fill-made zero e = sym (some-injective _ _ e)
  fill-made (suc n) e =
      let (filled, runs, e1) = bind-inv (fill_requests rand num_restaurants locations n a) _ e in
      let (r, r_runs, e2) = bind-inv (remainder (rand (2 * n)) num_restaurants) _ e1 in
      let (l, l_runs, e3) = bind-inv (remainder (rand (2 * n + 1)) locations) _ e2 in
      sym (some-injective _ _ e3)
      ∙ rw
          (
            fill-made n runs,
            remainder-some (rand (2 * n)) num_restaurants r r_runs,
            remainder-some (rand (2 * n + 1)) locations l l_runs,
          )
          refl

  made-customer : (n m : ℕ) → m < n → customer_of (made n) m ≡ some m
  unfolding made
  made-customer zero m h = absurd (omega arith)
  made-customer (suc n) m h = elim (last_cases m n h) [
    | inl e ↦ ground (arith, e)
    | inr below ↦ ground (arith, made-customer n m below)
  ]

  made-meal : (n c : ℕ) → c < n → meal_of (made n) c ≡ some c
  unfolding made
  made-meal zero c h = absurd (omega arith)
  made-meal (suc n) c h = elim (last_cases c n h) [
    | inl e ↦ ground (arith, e)
    | inr below ↦ ground (arith, made-meal n c below)
  ]

  pub made-Paired : (n : ℕ) → Paired n (made n)
  made-Paired n = record {
    to = λ i h. (i, made-customer n i h, h, made-meal n i h);
    back = λ i h. (i, made-meal n i h, h, made-customer n i h);
  }

-- the second loop keeps the pairs, and returns
pub shuffle-Paired :
    (rand : ℕ → ℕ) (k n : ℕ) (a : App)
    → k ≤ n
    → Paired n a
    → (a' : App) × (shuffle rand k a ≡ some a') × Paired n a'
unfolding shuffle
shuffle-Paired rand zero n a h v = (a, refl, v)
shuffle-Paired rand (suc k) n a h v =
    let (b, e, v') = swap_meals-Paired a n k (rand k % (k + 1)) v (omega arith) (omega arith) in
    let (a', e', v'') = shuffle-Paired rand k n b (omega arith) v' in (a', rw (e, e') refl, v'')

-- where it returns, the requests are paired
pub init_requests-some :
    (rand rand' : ℕ → ℕ) (num_requests num_restaurants locations : ℕ) (a : App) {b : App}
    → init_requests rand rand' num_requests num_restaurants locations a ≡ some b
    → shuffle rand' num_requests (made rand num_restaurants locations a num_requests) ≡ some b
unfolding init_requests
init_requests-some rand rand' n num_restaurants locations a e =
    let (filled, runs, e') = bind-inv (fill_requests rand num_restaurants locations n a) _ e in
    ap (shuffle rand' n) (sym (fill-made rand num_restaurants locations a n runs)) ∙ e'

-- With at least one restaurant and one location, `init_requests` returns, and then the meals and
-- the customers below `num_requests` are paired.
pub init_requests-Paired :
    (rand rand' : ℕ → ℕ) (num_requests num_restaurants locations : ℕ) (a : App)
    → 0 < num_restaurants
    → 0 < locations
    → (a' : App) × (init_requests rand rand' num_requests num_restaurants locations a ≡ some a')
      × Paired num_requests a'
unfolding init_requests
init_requests-Paired rand rand' n num_restaurants locations a r l =
    let (a', runs, paired) =
      shuffle-Paired rand' n n (made rand num_restaurants locations a n) (omega arith)
        (made-Paired rand num_restaurants locations a n) in
    (
      a',
      bind-some (shuffle rand' n) (fill-runs rand num_restaurants locations a n r l) ∙ runs,
      paired,
    )

meal_ext :
    (x y : Meal) → x.stats ≡ y.stats → x.customer ≡ y.customer → x.restaurant ≡ y.restaurant → x ≡ y
meal_ext x y s c r = λ i. record { stats = s i; customer = c i; restaurant = r i }

-- Where two different meals of paired requests have been mixed up, by `swap_meals` without
-- `preserveValidity`, `fix_mismatch` on the first of them returns, and each meal and each customer
-- is again what it was before.
pub fix_mismatch-swap_meals :
    (a : App) (n m1 m2 : ℕ)
    → Paired n a
    → m1 < n
    → m2 < n
    → (m1 ≡ m2 → ⊥)
    → (b : App) × (a' : App) × (swap_meals a m1 m2 false ≡ some b)
      × (fix_mismatch b m1 ≡ some a')
      × ((m : ℕ) → a'.meals m ≡ a.meals m)
      × (a'.customers ≡ a.customers)
unfolding swap_meals fix_mismatch
fix_mismatch-swap_meals a n m1 m2 v h1 h2 ne =
    let (c1, e1, b1, g1) = v.to m1 h1 in
    let (c2, e2, b2, g2) = v.to m2 h2 in
    let b = meal_set_customer (meal_set_customer a m1 (customer_of a m2)) m2 (customer_of a m1) in
    let a' = meal_set_customer (meal_set_customer b m1 (some c1)) m2 (some c2) in
    let at1 : customer_of b m1 ≡ some c2 = ground (arith, ne, e2) in
    let at2 : customer_of b m2 ≡ some c1 = ground (arith, e1) in
    let meals : (m : ℕ) → a'.meals m ≡ a.meals m = λ m.
      meal_ext (a'.meals m) (a.meals m) (ground arith) (ground (arith, ne, e1, e2))
        (ground arith) in
    (b, a', refl, rw (at1, g2, at2) refl, meals, refl)
