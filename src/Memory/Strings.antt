-- ===== src/Memory/Strings.antt =====
-- The string functions, on strings that end in a zero byte.
use cs61_psets.Common.{
  ℕ, zero, suc, ◌+◌, ◌≤◌, ◌<◌, ◌≡◌, refl, ◌∙◌, ap, ◌⊎◌, ◌↔◌, arith, true, false, some, List, [],
  ◌∷◌, ◌==◌, if_true, if_false, length, min,
}
use Prim.Native.Nat.{compare, Ordering}
use cs61_psets.Memory.{poke, memcpy, strlen, strnlen, strcpy, strcmp}
use cs61_psets.Memory.Move.{poke_other}

-- the string `xs` stands at the address
abbrev pub StringAt : (ℕ → ℕ) → ℕ → List ℕ → Type 0
StringAt mem s [] = mem s ≡ 0
StringAt mem s (x ∷ xs) = (mem s ≡ x) × (0 < x) × StringAt mem (s + 1) xs

-- the order of two strings by their first difference
abbrev pub order : List ℕ → List ℕ → Ordering
order [] [] = Ordering.eq
order [] (y ∷ ys) = Ordering.lt
order (x ∷ xs) [] = Ordering.gt
order (x ∷ xs) (y ∷ ys) =
    let rest = order xs ys in
    elim (compare x y) [
      | Ordering.lt ↦ Ordering.lt
      | Ordering.gt ↦ Ordering.gt
      | Ordering.eq ↦ rest
    ]

-- On a string `strlen` returns the number of its bytes, once it may look at one byte more.
pub strlen-length :
    (fuel : ℕ) (mem : ℕ → ℕ) (s : ℕ) (xs : List ℕ)
    → StringAt mem s xs
    → length xs < fuel
    → strlen fuel mem s ≡ some (length xs)
unfolding strlen
strlen-length zero mem s xs at h = absurd (omega arith)
strlen-length (suc fuel) mem s [] at h = ground (arith, at)
strlen-length (suc fuel) mem s (x ∷ xs) at h =
    ground (arith, at.0, at.1, strlen-length fuel mem (s + 1) xs at.2 (omega arith))

pub strcmp-order :
    (fuel : ℕ) (mem : ℕ → ℕ) (a b : ℕ) (xs ys : List ℕ)
    → StringAt mem a xs
    → StringAt mem b ys
    → length xs < fuel
    → strcmp fuel mem a b ≡ some (order xs ys)
unfolding strcmp
strcmp-order zero mem a b xs ys p q h = absurd (omega arith)
strcmp-order (suc fuel) mem a b [] [] p q h = rw (p, q) refl
strcmp-order (suc fuel) mem a b [] (y ∷ ys) p q h = rw (p, q.0) (ground (arith, q.1))
strcmp-order (suc fuel) mem a b (x ∷ xs) [] p q h = rw (p.0, q) (ground (arith, p.1))
strcmp-order (suc fuel) mem a b (x ∷ xs) (y ∷ ys) p q h =
    rw (p.0, q.0, strcmp-order fuel mem (a + 1) (b + 1) xs ys p.2 q.2 (omega arith))
      (ground (arith, p.1, q.1))

order_refl : (xs : List ℕ) → order xs xs ≡ Ordering.eq
order_refl [] = refl
order_refl (x ∷ xs) = ground (arith, order_refl xs)

order_tail :
    (x y : ℕ) (xs ys : List ℕ)
    → order (x ∷ xs) (y ∷ ys) ≡ Ordering.eq
    → (x ≡ y) × (order xs ys ≡ Ordering.eq)
order_tail x y xs ys e = ground (arith, e)

order_same : (xs ys : List ℕ) → order xs ys ≡ Ordering.eq → xs ≡ ys
order_same [] [] e = refl
order_same [] (y ∷ ys) e = cc
order_same (x ∷ xs) [] e = cc
order_same (x ∷ xs) (y ∷ ys) e =
    let (head, tail) = order_tail x y xs ys e in rw head (ap (λ zs. y ∷ zs) (order_same xs ys tail))

-- On two strings `strcmp` returns -1, 0 or 1 by the order of their first difference, once it may
-- look at one byte more than the first one has, and that is 0 exactly when the strings are equal.
pub strcmp_correct :
    (fuel : ℕ) (mem : ℕ → ℕ) (a b : ℕ) (xs ys : List ℕ)
    → StringAt mem a xs
    → StringAt mem b ys
    → length xs < fuel
    → (strcmp fuel mem a b ≡ some (order xs ys)) × ((order xs ys ≡ Ordering.eq) ↔ (xs ≡ ys))
strcmp_correct fuel mem a b xs ys p q h =
    (strcmp-order fuel mem a b xs ys p q h, (order_same xs ys, λ e. rw e (order_refl ys)))

strnlen-min :
    (mem : ℕ → ℕ) (s n : ℕ) (xs : List ℕ) → StringAt mem s xs → strnlen mem s n ≡ min (length xs) n
unfolding strnlen
strnlen-min mem s zero xs at = omega arith
strnlen-min mem s (suc n) [] at = ground (arith, at)
strnlen-min mem s (suc n) (x ∷ xs) at =
    ground (arith, at.0, at.1, strnlen-min mem (s + 1) n xs at.2)

-- a byte that is written outside of a string
poke-StringAt :
    (mem : ℕ → ℕ) (a byte s : ℕ) (xs : List ℕ)
    → (a < s) ⊎ (s + length xs < a)
    → StringAt mem s xs
    → StringAt (poke mem a byte) s xs
poke-StringAt mem a byte s [] out at = poke_other mem a s byte (λ e. omega arith) ∙ at
poke-StringAt mem a byte s (x ∷ xs) out at = (
  poke_other mem a s byte (λ e. omega arith) ∙ at.0,
  at.1,
  poke-StringAt mem a byte (s + 1) xs (omega arith) at.2,
)

-- On a string `strcpy` does what `memcpy` does with the string and its zero byte, if the place to
-- copy to begins at the string or before it, or behind it, once it may look at all of its bytes.
pub strcpy-memcpy :
    (fuel : ℕ) (mem : ℕ → ℕ) (dst src : ℕ) (xs : List ℕ)
    → StringAt mem src xs
    → (dst ≤ src) ⊎ (src + length xs < dst)
    → length xs < fuel
    → strcpy fuel mem dst src ≡ some (memcpy mem dst src (suc (length xs)))
unfolding strcpy memcpy
strcpy-memcpy zero mem d s xs at out h = absurd (omega arith)
strcpy-memcpy (suc fuel) mem d s [] at out h =
    let test : (mem s == 0) ≡ true = ground (arith, at) in if_true _ _ test
strcpy-memcpy (suc fuel) mem d s (x ∷ xs) at out h =
    let test : (mem s == 0) ≡ false = ground (arith, at.0, at.1) in
    if_false _ _ test
    ∙ strcpy-memcpy fuel (poke mem d (mem s)) (d + 1) (s + 1) xs
        (poke-StringAt mem d (mem s) (s + 1) xs (omega arith) at.2) (omega arith) (omega arith)
