-- ===== src/Printing/Numbuf.antt =====
-- The digits of `fill_numbuf` read back.
use cs61_psets.Common.{
  ℕ, zero, suc, ◌+◌, ◌-◌, ◌*◌, ◌/◌, ◌%◌, ◌^◌, ◌≤◌, ◌<◌, ◌≡◌, ◌≢◌, ◌⊎◌, refl, ◌∙◌, ap, Bool, inl,
  inr, arith, some, List, [], ◌∷◌, leb, ◌==◌, if◌then◌else◌, length, get_or, Bool-cases, ==_iff,
}
use native.Mathlib.Nat.{div-add-mod', div-lt_iff_lt-mul, mod-lt}
use native.Mathlib.Numerals.{unary_clauses}
use cs61_psets.Printing.Digits.{Base, digit_char, fill_digits, fill_numbuf}

-- the value of one digit, and of a number with more significant digits before it
abbrev pub digit_value : (c : ℕ) → ℕ
digit_value c = if leb c b'9' then c - b'0' else if leb b'a' c then c - b'a' + 10 else c - b'A' + 10

unfoldable pub read_number : (radix : ℕ) → List ℕ → ℕ → ℕ
read_number r [] n = n
read_number r (c ∷ cs) n = read_number r cs (n * r + digit_value c)

digit_value-digit_char : (lower : Bool) (d : ℕ) → d < 16 → digit_value (digit_char lower d) ≡ d
unfolding digit_char
digit_value-digit_char lower d h = ground arith

digit_char-ne_zero : (lower : Bool) (d : ℕ) → d < 16 → 0 < d → digit_char lower d ≢ b'0'
unfolding digit_char
digit_char-ne_zero lower d h pos = ground arith

-- a decimal digit, or a letter of the base's case, with a value below the radix
abbrev pub IsDigit : Base → (c : ℕ) → Type 0
IsDigit b c =
    (((b'0' ≤ c) × (c ≤ b'9'))
      ⊎ (((if b.lower then b'a' else b'A') ≤ c) × (c ≤ (if b.lower then b'f' else b'F'))))
    × (digit_value c < b.radix)

abbrev pub AllDigits : Base → List ℕ → Type 0
AllDigits b [] = Unit {0}
AllDigits b (c ∷ cs) = IsDigit b c × AllDigits b cs

digit_char-IsDigit : (b : Base) (d : ℕ) → d < 16 → d < b.radix → IsDigit b (digit_char b.lower d)
unfolding digit_char
digit_char-IsDigit b d h below = (kind b.lower, ground (arith, digit_value-digit_char b.lower d h))
  where
    kind :
        (lower : Bool)
        → ((b'0' ≤ digit_char lower d) × (digit_char lower d ≤ b'9'))
          ⊎ (((if lower then b'a' else b'A') ≤ digit_char lower d)
              × (digit_char lower d ≤ (if lower then b'f' else b'F')))
    kind lower = ground arith

-- The digits are those of a number: there is one at least, each is a digit of the base, they have
-- the number's value and fit, and a zero stands in front only if the number is zero.
pub record Shows (b : Base) (n : ℕ) (room : ℕ) (digits : List ℕ) : Type 0 where
  pub some_digit : 0 < length digits
  pub each : AllDigits b digits
  pub value : read_number b.radix digits 0 ≡ n
  pub fits : length digits ≤ room
  pub no_zero : 0 < n → get_or digits 0 0 ≢ b'0'

record Filled (b : Base) (room val : ℕ) (written : List ℕ) (out : List ℕ) : Type 0 where
  some_digit : 0 < length out
  each : AllDigits b out
  value : read_number b.radix out 0 ≡ read_number b.radix written val
  fits : length out ≤ room + length written
  no_zero : 0 < val → get_or out 0 0 ≢ b'0'

mod_digit : (n r : ℕ) → 2 ≤ r → r ≤ 16 → n % r < 16
mod_digit n r lo hi = omega (arith, mod-lt n {m = r} (omega arith))

-- one digit goes from the number to the written ones
shift :
    (b : Base) (val : ℕ) (written : List ℕ)
    → 2 ≤ b.radix
    → b.radix ≤ 16
    → read_number b.radix (digit_char b.lower (val % b.radix) ∷ written) (val / b.radix)
      ≡ read_number b.radix written val
unfolding read_number
shift b val written lo hi =
    rw
      (
        digit_value-digit_char b.lower (val % b.radix) (mod_digit val b.radix lo hi),
        div-add-mod' val b.radix,
      )
      refl

-- the loop, at its last round and at another one
done :
    (b : Base) (room val : ℕ) (written : List ℕ)
    → val / b.radix ≡ 0
    → fill_digits (suc room) b val written ≡ some (digit_char b.lower (val % b.radix) ∷ written)
unfolding fill_digits
done b room val written e = ground (arith, e)

again :
    (b : Base) (room val : ℕ) (written : List ℕ)
    → val / b.radix ≢ 0
    → fill_digits (suc room) b val written
      ≡ fill_digits room b (val / b.radix) (digit_char b.lower (val % b.radix) ∷ written)
unfolding fill_digits
again b room val written e = ground (arith, e)

last_digit : (val r : ℕ) → val / r ≡ 0 → val % r ≡ val
last_digit val r e = omega (arith, div-add-mod' val r, ap (λ (q : ℕ). q * r) e)

positive : (n : ℕ) → n ≢ 0 → 0 < n
positive n h = ground (arith, h)

fewer : (val r room : ℕ) → 2 ≤ r → val < r ^ suc room → val / r < r ^ room
fewer val r room lo h =
    let small : val < r ^ room * r = simp unary_clauses at h in
    (div-lt_iff_lt-mul (omega arith)).1 small

below_one : (n : ℕ) → n < 1 → n ≡ 0
below_one n h = omega arith

room_left : (val r room : ℕ) → val / r < r ^ room → val / r ≢ 0 → 0 < room
room_left val r zero h nz = absurd (nz (below_one _ (simp unary_clauses at h)))
room_left val r (suc room) h nz = omega arith

next_IsDigit :
    (b : Base) (val : ℕ)
    → 2 ≤ b.radix
    → b.radix ≤ 16
    → IsDigit b (digit_char b.lower (val % b.radix))
next_IsDigit b val lo hi =
    digit_char-IsDigit b (val % b.radix) (mod_digit val b.radix lo hi)
      (mod-lt val {m = b.radix} (omega arith))

fill_digits-Filled :
    (room : ℕ) (b : Base) (val : ℕ) (written : List ℕ)
    → 2 ≤ b.radix
    → b.radix ≤ 16
    → val < b.radix ^ room
    → 0 < room
    → AllDigits b written
    → (out : List ℕ) × (fill_digits room b val written ≡ some out) × Filled b room val written out
fill_digits-Filled zero b val written lo hi h pos before = absurd (omega arith)
fill_digits-Filled (suc room) b val written lo hi h pos before =
    elim (Bool-cases (val / b.radix == 0)) [
      | inl e ↦
          let z : val / b.radix ≡ 0 = (==_iff _ 0).0 e in
          let d : val % b.radix ≡ val = last_digit val b.radix z in
          (
            digit_char b.lower (val % b.radix) ∷ written,
            done b room val written z,
            record {
              some_digit = omega arith;
              each = (next_IsDigit b val lo hi, before);
              value = rw (← shift b val written lo hi, z) refl;
              fits = omega arith;
              no_zero = λ p.
                  digit_char-ne_zero b.lower _ (mod_digit val b.radix lo hi) (omega (arith, d));
            },
          )
      | inr e ↦
          let nz : val / b.radix ≢ 0 = ground (arith, e) in
          let small = fewer val b.radix room lo h in
          let (out, runs, ok) =
            fill_digits-Filled room b (val / b.radix) (digit_char b.lower (val % b.radix) ∷ written)
              lo hi small (room_left val b.radix room small nz)
              (next_IsDigit b val lo hi, before) in
          (
            out,
            again b room val written nz ∙ runs,
            record {
              some_digit = ok.some_digit;
              each = ok.each;
              value = ok.value ∙ shift b val written lo hi;
              fits = omega (arith, ok.fits);
              no_zero = λ _. ok.no_zero (positive (val / b.radix) nz);
            },
          )
    ]

-- For a base from 2 to 16, fill_numbuf of a number below the 23rd power of the base stays in
-- numbuf, and it is at least one digit of the base; they read back as that number, in that base,
-- with no zero in front but that of the number 0.
pub fill_numbuf-Shows :
    (b : Base) (val : ℕ)
    → 2 ≤ b.radix
    → b.radix ≤ 16
    → val < b.radix ^ 23
    → (out : List ℕ) × (fill_numbuf val b ≡ some out) × Shows b val 23 out
unfolding fill_numbuf read_number
fill_numbuf-Shows b val lo hi h =
    let (out, runs, ok) = fill_digits-Filled 23 b val [] lo hi h (omega arith) tt in
    (
      out,
      runs,
      record {
        some_digit = ok.some_digit;
        each = ok.each;
        value = ok.value;
        fits = omega (arith, ok.fits);
        no_zero = ok.no_zero;
      },
    )
