-- ===== src/Ubler/Drivers/Start.antt =====
-- What `create_and_run_requests` sets up, and that it is a start for the drivers.
use cs61_psets.Common.{
  some-injective, ℕ, zero, suc, ◌+◌, ◌*◌, ◌%◌, ◌<◌, ◌≡◌, refl, sym, ◌∙◌, ap, inl, inr, arith, true,
  false, Bool-cases, Option, Option-cases, none, some, ◌>>=◌, sum_to-zero, last_cases, bind-some,
  bind-inv, if_true,
}
use mathlib.Core.Path.{subst}
use cs61_psets.Ubler.{App, private_tracking_create, meal_set_customer, customer_set_meal}
use cs61_psets.Ubler.Requests.{swap_meals, shuffle, init_requests, if_one, init_restaurants}
use cs61_psets.Ubler.Requests.Pairs.{Paired, made, made-Paired, shuffle-Paired, init_requests-some}
use cs61_psets.Ubler.Drivers.{receiving, System, dispatch_drivers, set_up, within_limits}
use cs61_psets.Ubler.Drivers.Invariant.{holds, goes, carries, late_customer, late_meal, Inv}

-- nothing has happened to the request yet
abbrev Untouched : App → ℕ → Type 0
Untouched a i =
    ((a.customers i).stats ≡ private_tracking_create)
    × ((a.meals i).stats ≡ private_tracking_create)
    × ((a.customers i).locked ≡ false)
    × ((r : ℕ) × ((a.meals i).restaurant ≡ some r))

made-Untouched :
    (rand : ℕ → ℕ) (num_restaurants locations : ℕ) (a : App) (n i : ℕ)
    → i < n
    → Untouched (made rand num_restaurants locations a n) i
unfolding made
made-Untouched rand num_restaurants locations a zero i h = absurd (omega arith)
made-Untouched rand num_restaurants locations a (suc n) i h = elim (last_cases i n h) [
  | inl e ↦
      rw e
        (ground arith, ground arith, ground arith, (rand (2 * n) % num_restaurants, ground arith))
  | inr below ↦
      let (c, m, l, (r, e)) = made-Untouched rand num_restaurants locations a n i below in
      (ground (arith, c), ground (arith, m), ground (arith, l), (r, ground (arith, e)))
]

swap-Untouched :
    (a b : App) (m1 m2 i : ℕ) → swap_meals a m1 m2 true ≡ some b → Untouched a i → Untouched b i
unfolding swap_meals
swap-Untouched a b m1 m2 i e (c, m, l, (r, e')) =
    go (a.meals m1).customer (a.meals m2).customer refl refl
  where
    go :
        (o1 o2 : Option ℕ) → (a.meals m1).customer ≡ o1 → (a.meals m2).customer ≡ o2 → Untouched b i
    go none o2 e1 e2 = absurd (cc (e, e1))
    go (some c1) none e1 e2 = absurd (cc (e, e1, e2))
    go (some c1) (some c2) e1 e2 =
        let swapped = meal_set_customer (meal_set_customer a m1 (some c2)) m2 (some c1) in
        let a' : App = customer_set_meal (customer_set_meal swapped c1 (some m2)) c2 (some m1) in
        let runs : swap_meals a m1 m2 true ≡ some a' = rw (e1, e2) refl in
        let same : some a' ≡ some b = sym runs ∙ e in
        subst (λ b. Untouched b i) (some-injective _ _ same)
          (ground (arith, c), ground (arith, m), ground (arith, l), (r, ground (arith, e')))

shuffle-Untouched :
    (rand : ℕ → ℕ) (k i : ℕ) (a b : App) → shuffle rand k a ≡ some b → Untouched a i → Untouched b i
unfolding shuffle
shuffle-Untouched rand zero i a b e u = subst (λ b. Untouched b i) (some-injective _ _ e) u
shuffle-Untouched rand (suc k) i a b e u =
    elim (Option-cases (swap_meals a k (rand k % (k + 1)) true)) [
      | inl fails ↦ absurd (cc (e, ap (λ o. o >>= shuffle rand k) fails))
      | inr (a', is) ↦
          shuffle-Untouched rand k i a' b (sym (bind-some (shuffle rand k) is) ∙ e)
            (swap-Untouched a a' k (rand k % (k + 1)) i is u)
    ]

-- the state in which the drivers start
pub start-Inv :
    (n k driver_hub : ℕ) (a : App)
    → Paired n a
    → ((i : ℕ) → i < n → Untouched a i)
    → Inv n k (dispatch_drivers a driver_hub)
start-Inv n k driver_hub a paired u = record {
  paired = paired;
  cooked = λ m h. (u m h).3;
  meal_bound = omega arith;
  customer_bound = omega arith;
  ready = λ i. tt;
  served = λ c m (h, h', e, e'). record {
    lock = sum_to-zero (holds c) k (λ i. receiving) (λ i below. refl) ∙ ap if_one (sym (u c h).2);
    once =
        rw ((u c h).0, (u m h').1)
          (omega (arith, sum_to-zero (goes c) k (λ i. receiving) (λ i below. refl)));
    under_way =
        rw ((u c h).0, (u m h').1)
          (omega (
            arith,
            sum_to-zero (carries c) k (λ i. receiving) (λ i below. refl),
            sum_to-zero (late_customer c) k (λ i. receiving) (λ i below. refl),
          ));
    together =
        rw ((u c h).0, (u m h').1)
          (omega (
            arith,
            sum_to-zero (late_customer c) k (λ i. receiving) (λ i below. refl),
            sum_to-zero (late_meal c) k (λ i. receiving) (λ i below. refl),
          ));
  };
}

init-Untouched :
    (rand rand' : ℕ → ℕ) (n num_restaurants locations i : ℕ) (a b : App)
    → init_requests rand rand' n num_restaurants locations a ≡ some b
    → i < n
    → Untouched b i
init-Untouched rand rand' n num_restaurants locations i a b e h =
    shuffle-Untouched rand' n i (made rand num_restaurants locations a n) b
      (init_requests-some rand rand' n num_restaurants locations a e)
      (made-Untouched rand num_restaurants locations a n i h)

init-Paired :
    (rand rand' : ℕ → ℕ) (n num_restaurants locations : ℕ) (a : App) {b : App}
    → init_requests rand rand' n num_restaurants locations a ≡ some b
    → Paired n b
init-Paired rand rand' n num_restaurants locations a e =
    let (b, runs, paired) =
      shuffle-Paired rand' n n (made rand num_restaurants locations a n) (omega arith)
        (made-Paired rand num_restaurants locations a n) in
    subst (Paired n)
      (some-injective _ _
        (sym runs ∙ init_requests-some rand rand' n num_restaurants locations a e))
      paired

-- without mix-ups
pub set_up-Inv :
    (rand rand' rand'' rand''' : ℕ → ℕ) (n num_restaurants k driver_hub : ℕ) (a : App) (s : System)
    → set_up rand rand' rand'' rand''' n num_restaurants k false driver_hub a ≡ some (some s)
    → Inv n k s
unfolding set_up
set_up-Inv rand rand' rand'' rand''' n num_restaurants k driver_hub a s e =
    let a' : App = record a {
      restaurants = init_restaurants rand 32 num_restaurants a.restaurants;
    } in
    elim (Bool-cases (within_limits n num_restaurants k)) [
      | inl ok ↦
          let (b, runs, e') =
            bind-inv (init_requests rand' rand'' n num_restaurants 32 a') _
              (sym (if_true _ _ ok) ∙ e) in
          let is = some-injective _ _ (some-injective _ _ e') in
          subst (Inv n k) is (
            start-Inv n k driver_hub b (init-Paired rand' rand'' n num_restaurants 32 a' runs)
              (λ i h. init-Untouched rand' rand'' n num_restaurants 32 i a' b runs h))
      | inr over ↦ absurd (cc (e, over))
    ]
