-- ===== src/Printing/Digits.antt =====
-- pset6/lib.c: fill_numbuf.
use cs61_psets.Common.{
  ℕ, zero, suc, ◌+◌, ◌-◌, ◌/◌, ◌%◌, Bool, Option, none, some, List, [], ◌∷◌, ltb, ◌==◌,
  if◌then◌else◌,
}

-- The numbers that `base` stands for, with its sign.
pub record Base : Type 0 where
  pub radix : ℕ
  pub lower : Bool

-- `digits[d]`, for a digit below 16
unfoldable pub digit_char : Bool → (d : ℕ) → ℕ
digit_char lower d =
    if ltb d 10 then b'0' + d else if lower then b'a' + (d - 10) else b'A' + (d - 10)

-- The loop of `fill_numbuf`, with the digits that it has written; `room` is what is left of numbuf
-- before them.
unfoldable pub fill_digits : (room : ℕ) → Base → (val : ℕ) (written : List ℕ) → Option (List ℕ)
fill_digits zero b val written = none
fill_digits (suc room) b val written =
    let rest = fill_digits room b (val / b.radix) (digit_char b.lower (val % b.radix) ∷ written) in
    if val / b.radix == 0 then some (digit_char b.lower (val % b.radix) ∷ written) else rest

abbrev pub numbufsiz : ℕ
numbufsiz = 24

-- One byte of numbuf is the zero byte.
unfoldable pub fill_numbuf : (val : ℕ) → Base → Option (List ℕ)
unfolding fill_digits
fill_numbuf val b = fill_digits (numbufsiz - 1) b val []
