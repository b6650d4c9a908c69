-- ===== src/Common/Families.antt =====
-- Arrays and threads as functions of an index: the update at one index, and sums over the first
-- ones.
use Prim.Native.Nat.{ℕ, zero, suc, ◌+◌, ◌≤◌, ◌<◌}
use mathlib.Core.Path.{◌≡◌, refl}
use mathlib.Core.Logic.{◌⊎◌, inl, inr}
use native.Mathlib.Omega.{arith}
use cs61_psets.Common.Tests.{◌==◌, if◌then◌else◌}

abbrev pub put {ℓ} : {A : Type ℓ} → (ℕ → A) → ℕ → A → ℕ → A
put f i a j = if j == i then a else f j

module _ {ℓ} {A : Type ℓ} where
  pub put_same : (f : ℕ → A) (i : ℕ) (a : A) → put f i a i ≡ a
  put_same f i a = ground arith

  pub put_other : (f : ℕ → A) (i j : ℕ) (a : A) → (j ≡ i → ⊥) → put f i a j ≡ f j
  put_other f i j a h = ground arith

pub last_cases : (i n : ℕ) → i < suc n → (i ≡ n) ⊎ (i < n)
last_cases i n h = omega arith

module _ {ℓ} {A : Type ℓ} (w : A → ℕ) where
  pub sum_to : ℕ → (ℕ → A) → ℕ
  sum_to zero f = 0
  sum_to (suc n) f = w (f n) + sum_to n f

  sum_to-put_above : (n : ℕ) (f : ℕ → A) (i : ℕ) (a : A) → n ≤ i → sum_to n (put f i a) ≡ sum_to n f
  unfolding sum_to
  sum_to-put_above zero f i a h = refl
  sum_to-put_above (suc n) f i a h = ground (arith, sum_to-put_above n f i a)

  -- the sum moves by the difference of the two weights
  pub sum_to-put :
      (n : ℕ) (f : ℕ → A) (i : ℕ) (a : A)
      → i < n
      → sum_to n (put f i a) + w (f i) ≡ sum_to n f + w a
  unfolding sum_to
  sum_to-put zero f i a h = absurd (omega arith)
  sum_to-put (suc n) f i a h = elim (last_cases i n h) [
    | inl e ↦ ground (arith, sum_to-put_above n f i a, e)
    | inr below ↦ ground (arith, sum_to-put n f i a below)
  ]

  -- one part of a sum
  pub le-sum_to : (n : ℕ) (f : ℕ → A) (i : ℕ) → i < n → w (f i) ≤ sum_to n f
  unfolding sum_to
  le-sum_to zero f i h = absurd (omega arith)
  le-sum_to (suc n) f i h = elim (last_cases i n h) [
    | inl e ↦ ground (arith, e)
    | inr below ↦ omega (arith, le-sum_to n f i below)
  ]

pub sum_to-le {ℓ} :
    {A : Type ℓ} (w w' : A → ℕ)
    → ((a : A) → w a ≤ w' a)
    → (n : ℕ) (f : ℕ → A) → sum_to w n f ≤ sum_to w' n f
unfolding sum_to
sum_to-le w w' h zero f = omega arith
sum_to-le w w' h (suc n) f = omega (arith, h (f n), sum_to-le w w' h n f)

pub sum_to-zero {ℓ} :
    {A : Type ℓ} (w : A → ℕ) (n : ℕ) (f : ℕ → A)
    → ((i : ℕ) → i < n → w (f i) ≡ 0)
    → sum_to w n f ≡ 0
unfolding sum_to
sum_to-zero w zero f h = refl
sum_to-zero w (suc n) f h =
    omega (arith, h n (omega arith), sum_to-zero w n f (λ i below. h i (omega arith)))

pub sum_to-ext {ℓ} :
    {A : Type ℓ} (w : A → ℕ) (n : ℕ) (f g : ℕ → A)
    → ((i : ℕ) → w (f i) ≡ w (g i))
    → sum_to w n f ≡ sum_to w n g
unfolding sum_to
sum_to-ext w zero f g h = refl
sum_to-ext w (suc n) f g h = omega (arith, h n, sum_to-ext w n f g h)

-- a sum is zero, or one of its parts is not
pub sum_to-cases {ℓ} :
    {A : Type ℓ} (w : A → ℕ) (n : ℕ) (f : ℕ → A)
    → (sum_to w n f ≡ 0) ⊎ ((i : ℕ) × (i < n) × (1 ≤ w (f i)))
unfolding sum_to
sum_to-cases w zero f = inl refl
sum_to-cases w (suc n) f = elim (zero_cases (w (f n))) [
  | inr h ↦ inr (n, omega arith, h)
  | inl z ↦ elim (sum_to-cases w n f) [
    | inl z' ↦ inl (omega (arith, z, z'))
    | inr (i, below, h) ↦ inr (i, omega (arith, below), h)
  ]
]
  where
    zero_cases : (m : ℕ) → (m ≡ 0) ⊎ (1 ≤ m)
    zero_cases m = omega arith
