-- ===== src/Printing/Numbers.antt =====
-- What the conversions of numbers print.
use cs61_psets.Common.{
  ℕ, ◌-◌, ◌^◌, ◌<◌, ◌≡◌, refl, ap, sym, ◌∙◌, arith, true, none, some, List, [], ◌∷◌, ◌++◌,
  append-nil, append_assoc, leb, if◌then◌else◌, length, take-all, bind-some, ◌>>=◌,
}
use cs61_psets.Common.Bytes.{u32}
use native.Mathlib.Nat.{mod-eq_of_lt, zero-sub}
use cs61_psets.Printing.{
  Field, prefix, layout, show_field, put_times, put_all, put_field, put_conversion, vprintf_loop,
  printer_vprintf,
}
use cs61_psets.Printing.Format.{
  Flags, no_flags, base_10, base_16, base_16_lower, word, shown, parse_directive,
}
use cs61_psets.Printing.Digits.{Base, fill_numbuf}
use cs61_psets.Printing.Numbuf.{Shows, fill_numbuf-Shows}
use cs61_psets.Printing.Feed.{Printed, append_putc, printed}

-- "%d", "%u", "%x" and "%X"
pub data NumberFormat : Type 0 where
  signed_ unsigned_ hex hex_upper : NumberFormat

abbrev pub letter : NumberFormat → ℕ
letter signed_ = b'd'
letter unsigned_ = b'u'
letter hex = b'x'
letter hex_upper = b'X'

abbrev pub base_of : NumberFormat → Base
base_of signed_ = base_10
base_of unsigned_ = base_10
base_of hex = base_16_lower
base_of hex_upper = base_16

-- a pattern of 32 bits as a number: its sign, and what it is without
abbrev pub sign_of : NumberFormat → (n : ℕ) → List ℕ
sign_of signed_ n = if leb (2 ^ 31) n then b'-' ∷ [] else []
sign_of unsigned_ n = []
sign_of hex n = []
sign_of hex_upper n = []

abbrev pub magnitude : NumberFormat → (n : ℕ) → ℕ
magnitude signed_ n = if leb (2 ^ 31) n then u32 - n else n
magnitude unsigned_ n = n
magnitude hex n = n
magnitude hex_upper n = n

abbrev pub colored : (color : ℕ) → List ℕ → Printed
colored color [] = []
colored color (c ∷ cs) = (c, color) ∷ colored color cs

put_all-colored :
    (cs : List ℕ) (out : Printed) (color : ℕ)
    → put_all append_putc cs out color ≡ out ++ colored color cs
unfolding put_all
put_all-colored [] out color = sym (append-nil out)
put_all-colored (c ∷ cs) out color =
    put_all-colored cs (append_putc out c color) color ∙ append_assoc out _ _

colored-append :
    (color : ℕ) (a b : List ℕ) → colored color a ++ colored color b ≡ colored color (a ++ b)
colored-append color [] b = refl
colored-append color (c ∷ a) b = ap (λ (o : Printed). (c, color) ∷ o) (colored-append color a b)

abbrev number_flags : NumberFormat → (n : ℕ) → Flags
number_flags signed_ n = record no_flags {
  numeric = true;
  signed = true;
  negative = leb (2 ^ 31) n;
}
number_flags unsigned_ n = record no_flags { numeric = true }
number_flags hex n = record no_flags { numeric = true }
number_flags hex_upper n = record no_flags { numeric = true }

directive :
    (k : NumberFormat) (n : ℕ)
    → n < u32
    → parse_directive (letter k ∷ []) (word n ∷ [])
      ≡ some (record {
        width = 0;
        precision = none;
        conversion = shown (number_flags k n) (base_of k) (magnitude k n) [];
        rest = [];
        val = [];
      })
unfolding parse_directive
directive signed_ n h = rw (mod-eq_of_lt h) refl
directive unsigned_ n h = rw (mod-eq_of_lt h) refl
directive hex n h = rw (mod-eq_of_lt h) refl
directive hex_upper n h = rw (mod-eq_of_lt h) refl

prefix-sign_of :
    (k : NumberFormat) (n : ℕ) → prefix (number_flags k n) (base_of k) (magnitude k n) ≡ sign_of k n
unfolding prefix
prefix-sign_of signed_ n = ground arith
prefix-sign_of unsigned_ n = refl
prefix-sign_of hex n = refl
prefix-sign_of hex_upper n = refl

plain :
    (k : NumberFormat) (n : ℕ) (before digits : List ℕ)
    → layout (number_flags k n) 0 none before digits
      ≡ record { left = 0; before = before; zeros = 0; body = digits; right = 0 }
unfolding layout
plain signed_ n before digits = rw (zero-sub, take-all (length digits) digits (omega arith)) refl
plain unsigned_ n before digits = rw (zero-sub, take-all (length digits) digits (omega arith)) refl
plain hex n before digits = rw (zero-sub, take-all (length digits) digits (omega arith)) refl
plain hex_upper n before digits = rw (zero-sub, take-all (length digits) digits (omega arith)) refl

numeric_shown :
    (k : NumberFormat) (n : ℕ)
    → show_field (number_flags k n) (base_of k) (magnitude k n) [] 0 none ≡ (
        fill_numbuf (magnitude k n) (base_of k) >>= λ s. some (
          layout
            (number_flags k n)
            0
            none
            (prefix (number_flags k n) (base_of k) (magnitude k n))
            s))
unfolding show_field
numeric_shown signed_ n = refl
numeric_shown unsigned_ n = refl
numeric_shown hex n = refl
numeric_shown hex_upper n = refl

abbrev plain_field : (before digits : List ℕ) → Field
plain_field before digits = record {
  left = 0;
  before = before;
  zeros = 0;
  body = digits;
  right = 0;
}

numeric_field :
    (k : NumberFormat) (n : ℕ) (digits : List ℕ)
    → fill_numbuf (magnitude k n) (base_of k) ≡ some digits
    → show_field (number_flags k n) (base_of k) (magnitude k n) [] 0 none
      ≡ some (plain_field (sign_of k n) digits)
numeric_field k n digits e =
    numeric_shown k n
    ∙ bind-some
        (λ s. some (
          layout (number_flags k n) 0 none (prefix (number_flags k n) (base_of k) (magnitude k n))
            s))
        e
    ∙ ap some (plain k n _ digits ∙ ap (λ b. plain_field b digits) (prefix-sign_of k n))

put_plain :
    (before digits : List ℕ) (color : ℕ)
    → put_field append_putc (plain_field before digits) [] color ≡ colored color (before ++ digits)
unfolding put_field put_times
put_plain before digits color =
    put_all-colored digits (put_all append_putc before [] color) color
    ∙ rw (put_all-colored before [] color) (colored-append color before digits)

converted :
    (k : NumberFormat) (color n : ℕ) (digits : List ℕ)
    → fill_numbuf (magnitude k n) (base_of k) ≡ some digits
    → put_conversion append_putc [] color 0 none
        (shown (number_flags k n) (base_of k) (magnitude k n) [])
      ≡ some (colored color (sign_of k n ++ digits), color)
unfolding put_conversion
converted k color n digits e =
    bind-some (λ (f : Field). some (put_field append_putc f [] color, color))
      (numeric_field k n digits e)
    ∙ ap {A = Printed} (λ o. some (o, color)) (put_plain (sign_of k n) digits color)

one_conversion :
    (k : NumberFormat) (color n : ℕ) (digits : List ℕ)
    → n < u32
    → fill_numbuf (magnitude k n) (base_of k) ≡ some digits
    → printed color (b'%' ∷ letter k ∷ []) (word n ∷ [])
      ≡ some (colored color (sign_of k n ++ digits))
unfolding printed printer_vprintf vprintf_loop
one_conversion k color n digits h e = rw (directive k n h, converted k color n digits e) refl

magnitude-lt : (k : NumberFormat) (n : ℕ) → n < u32 → magnitude k n < (base_of k).radix ^ 23
magnitude-lt signed_ n h = ground (arith, h)
magnitude-lt unsigned_ n h = omega (arith, h)
magnitude-lt hex n h = omega (arith, h)
magnitude-lt hex_upper n h = omega (arith, h)

digits_of :
    (k : NumberFormat) (n : ℕ)
    → n < u32
    → (digits : List ℕ) × (fill_numbuf (magnitude k n) (base_of k) ≡ some digits)
      × Shows (base_of k) (magnitude k n) 23 digits
digits_of signed_ n h =
    fill_numbuf-Shows base_10 _ (omega arith) (omega arith) (magnitude-lt signed_ n h)
digits_of unsigned_ n h =
    fill_numbuf-Shows base_10 _ (omega arith) (omega arith) (magnitude-lt unsigned_ n h)
digits_of hex n h =
    fill_numbuf-Shows base_16_lower _ (omega arith) (omega arith) (magnitude-lt hex n h)
digits_of hex_upper n h =
    fill_numbuf-Shows base_16 _ (omega arith) (omega arith) (magnitude-lt hex_upper n h)

-- Of every 32-bit number, "%d" prints a minus sign if it is negative, and "%d", "%u", "%x" and "%X"
-- print at least one and at most 23 digits of base 10 or 16, the letters in the case of the
-- conversion, that read back as its magnitude, with no zero in front but that of the number 0.
pub print_number :
    (k : NumberFormat) (color n : ℕ)
    → n < u32
    → (digits : List ℕ) × (printed color (b'%' ∷ letter k ∷ []) (word n ∷ [])
        ≡ some (colored color (sign_of k n ++ digits)))
      × Shows (base_of k) (magnitude k n) 23 digits
print_number k color n h =
    let (digits, runs, ok) = digits_of k n h in (digits, one_conversion k color n digits h runs, ok)
