-- ===== src/Memory/Move.antt =====
-- `memcpy`, `memmove` and `memset`.
use cs61_psets.Common.{
  ℕ, zero, suc, ◌+◌, ◌≤◌, ◌<◌, ◌≡◌, refl, sym, ◌∙◌, ap, ◌⊎◌, inl, inr, arith, true, false, ltb,
  ◌&&◌, if_true, if_false,
}
use mathlib.Core.Path.{subst}
use cs61_psets.Memory.{poke, memcpy, move_back, memmove}

pub poke_same : (mem : ℕ → ℕ) (a byte : ℕ) → poke mem a byte a ≡ byte
poke_same mem a byte = ground arith

pub poke_other : (mem : ℕ → ℕ) (a b byte : ℕ) → (a ≡ b → ⊥) → poke mem a byte b ≡ mem b
poke_other mem a b byte h = ground arith

-- `mem'` is `mem` with the `n` bytes from `src` on also at `dst`
pub record Copied (mem mem' : ℕ → ℕ) (dst src n : ℕ) : Type 0 where
  pub inside : (k : ℕ) → k < n → mem' (dst + k) ≡ mem (src + k)
  pub outside : (a : ℕ) → (a < dst) ⊎ (dst + n ≤ a) → mem' a ≡ mem a

pub memcpy-Copied :
    (mem : ℕ → ℕ) (d s n : ℕ) → (d ≤ s) ⊎ (s + n ≤ d) → Copied mem (memcpy mem d s n) d s n
unfolding memcpy
memcpy-Copied mem d s zero h = record {
  inside = λ k h. absurd (omega arith);
  outside = λ a h. refl;
}
memcpy-Copied mem d s (suc n) h =
    let rest = memcpy-Copied (poke mem d (mem s)) (d + 1) (s + 1) n (omega arith) in
    record {
      inside = first (memcpy (poke mem d (mem s)) (d + 1) (s + 1) n) rest.inside rest.outside;
      outside =
          λ a out. rest.outside a (omega arith) ∙ poke_other mem d a (mem s) (λ e. omega arith);
    }
  where
    first :
        (mem' : ℕ → ℕ)
        → ((k : ℕ) → k < n → mem' (d + 1 + k) ≡ poke mem d (mem s) (s + 1 + k))
        → ((a : ℕ) → (a < d + 1) ⊎ (d + 1 + n ≤ a) → mem' a ≡ poke mem d (mem s) a)
        → (k : ℕ) → k < suc n
        → mem' (d + k) ≡ mem (s + k)
    first mem' new old zero below =
        ap mem' (omega arith) ∙ old d (omega arith) ∙ poke_same mem d (mem s) ∙ ap mem (omega arith)
    first mem' new old (suc k) below =
        ap mem' (omega arith)
        ∙ new k (omega arith)
        ∙ poke_other mem d (s + 1 + k) (mem s) (λ e. omega arith)
        ∙ ap mem (omega arith)

move_back-Copied : (mem : ℕ → ℕ) (d s n : ℕ) → s < d → Copied mem (move_back mem d s n) d s n
unfolding move_back
move_back-Copied mem d s zero h = record {
  inside = λ k h. absurd (omega arith);
  outside = λ a h. refl;
}
move_back-Copied mem d s (suc n) h =
    let rest = move_back-Copied (poke mem (d + n) (mem (s + n))) d s n h in
    record {
      inside = λ k below. elim (last_cases k below) [
        | inl e ↦
            rw e (rest.outside (d + n) (inr (omega arith)) ∙ poke_same mem (d + n) (mem (s + n)))
        | inr earlier ↦
            rest.inside k earlier ∙ poke_other mem (d + n) (s + k) (mem (s + n)) (λ e. omega arith)
      ];
      outside = λ a out.
          rest.outside a (omega arith) ∙ poke_other mem (d + n) a (mem (s + n)) (λ e. omega arith);
    }
  where
    last_cases : (k : ℕ) → k < suc n → (k ≡ n) ⊎ (k < n)
    last_cases k h = omega arith

overlap_cases :
    (d s n : ℕ)
    → (((ltb s d && ltb d (s + n)) ≡ true) × (s < d))
      ⊎ (((ltb s d && ltb d (s + n)) ≡ false) × ((d ≤ s) ⊎ (s + n ≤ d)))
overlap_cases d s n = ground arith

-- `memmove` puts the bytes that were at `src` to `dst`, however the two blocks overlap, and
-- changes nothing outside of `dst`'s block.
pub memmove-Copied : (mem : ℕ → ℕ) (dst src n : ℕ) → Copied mem (memmove mem dst src n) dst src n
unfolding memmove
memmove-Copied mem d s n = elim (overlap_cases d s n) [
  | inl (test, before) ↦
      subst (λ m. Copied mem m d s n) (sym (if_true _ _ test)) (move_back-Copied mem d s n before)
  | inr (test, apart) ↦
      subst (λ m. Copied mem m d s n) (sym (if_false _ _ test)) (memcpy-Copied mem d s n apart)
]
