-- ===== src/Printing/Padding.antt =====
-- The width and the precision of a conversion, and what "%d" and its kin print.
use cs61_psets.Common.{
  ℕ, zero, suc, ◌+◌, ◌≡◌, refl, ap, ◌⊎◌, inl, inr, some-injective, arith, true, false, Option, none,
  some, List, [], ◌∷◌, ◌++◌, min, max, length, take, replicate, length-take, take-all,
}
use native.Mathlib.Nat.{suc-min-suc, zero-min, min-zero}
use mathlib.Core.Option.{none-ne-some, some-ne-none}
use cs61_psets.Printing.{Field, layout}
use cs61_psets.Printing.Format.{Flags}

-- The characters of a field.
abbrev pub field_text : Field → List ℕ
field_text f =
    replicate f.left b' '
    ++ (f.before ++ (replicate f.zeros b'0' ++ (f.body ++ replicate f.right b' ')))

abbrev pub content : Field → ℕ
content f = length f.before + f.zeros + length f.body

-- `field` shows `shown` behind `before` in `width` columns, with the flags and the precision.
pub record Padded (f : Flags) (width : ℕ) (precision : Option ℕ) (before shown : List ℕ)
    (field : Field) : Type 0 where
  pub prefixed : field.before ≡ before
  pub columns : field.left + content field + field.right ≡ max width (content field)
  pub one_side : (f.leftjustify ≡ true → field.left ≡ 0) × (f.leftjustify ≡ false → field.right ≡ 0)
  pub number : f.numeric ≡ true → field.body ≡ shown
  pub digits :
      f.numeric ≡ true
      → (p : ℕ) → precision ≡ some p
      → field.zeros + length shown ≡ max p (length shown)
  pub string :
      f.numeric ≡ false
      → (field.zeros ≡ 0) × (field.body ≡ elim precision [ none ↦ shown | some p ↦ take p shown ])
  pub not_filled : precision ≡ none → (f.zero_ ≡ false) ⊎ (f.leftjustify ≡ true) → field.zeros ≡ 0
  pub filled :
      f.numeric ≡ true
      → precision ≡ none
      → f.zero_ ≡ true
      → f.leftjustify ≡ false
      → content field ≡ max width (length before + length shown)

take-min {ℓ} : {A : Type ℓ} (n : ℕ) (xs : List A) → take (min n (length xs)) xs ≡ take n xs
take-min zero xs = rw zero-min refl
take-min (suc n) [] = rw min-zero refl
take-min (suc n) (x ∷ xs) = rw suc-min-suc (ap (λ ys. x ∷ ys) (take-min n xs))

-- The layout of a field: the prefix, then the number whole or as much of the string as the
-- precision lets through; it takes the columns of the width, or more if the content does, and is
-- padded on the side that the flags say; a precision gives a number that many digits. Without one
-- the flag 0 fills the width of a number with zeros, and without that flag, or with the flag -, no
-- zero is added.
pub layout-Padded :
    (f : Flags) (width : ℕ) (precision : Option ℕ) (before shown : List ℕ)
    → Padded f width precision before shown (layout f width precision before shown)
unfolding layout
layout-Padded f width none before shown =
    let all : take (length shown) shown ≡ shown = take-all (length shown) shown (omega arith) in
    record {
      prefixed = refl;
      columns = ground (arith, all);
      one_side = ground arith;
      number = λ _. all;
      digits = λ _ p e. absurd (none-ne-some p e);
      string = λ e. (ground (arith, e), all);
      not_filled = λ _ h. elim h [ inl e ↦ ground (arith, e) | inr e ↦ ground (arith, e) ];
      filled = λ e1 _ e2 e3. ground (arith, all, e1, e2, e3);
    }
layout-Padded f width (some p) before shown =
    let all : take (length shown) shown ≡ shown = take-all (length shown) shown (omega arith) in
    record {
      prefixed = refl;
      columns = ground (arith, all, length-take (min p (length shown)) shown);
      one_side = ground arith;
      number = λ e. ground (arith, e, all);
      digits = λ e q is. ground (arith, e, some-injective p q is);
      string = λ e. (ground (arith, e), ground (arith, e, take-min p shown));
      not_filled = λ e. absurd (some-ne-none p e);
      filled = λ _ e. absurd (some-ne-none p e);
    }
