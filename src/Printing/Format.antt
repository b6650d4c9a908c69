-- ===== src/Printing/Format.antt =====
-- pset6/lib.c: the conversions of a format in printer_vprintf, from the percent sign to the end of
-- the switch.
use cs61_psets.Common.{
  ℕ, ◌+◌, ◌-◌, ◌*◌, ◌%◌, ◌^◌, Bool, true, false, Option, none, some, List, [], ◌∷◌, ltb, leb, ◌==◌,
  ◌&&◌, if◌then◌else◌, ◌>>=◌,
}
use cs61_psets.Common.Bytes.{u32}
use cs61_psets.Printing.Digits.{Base}

-- the bits FLAG_ALT, ..., FLAG_ALT2
pub record Flags : Type 0 where
  pub alt : Bool
  pub zero_ : Bool
  pub leftjustify : Bool
  pub spacepositive : Bool
  pub pluspositive : Bool
  pub numeric : Bool
  pub signed : Bool
  pub negative : Bool
  pub alt2 : Bool

abbrev pub no_flags : Flags
no_flags = record {
  alt = false;
  zero_ = false;
  leftjustify = false;
  spacepositive = false;
  pluspositive = false;
  numeric = false;
  signed = false;
  negative = false;
  alt2 = false;
}

-- the flag that `strchr` finds in flag_chars
unfoldable pub add_flag : (c : ℕ) → Flags → Option Flags
add_flag c f =
    if c == b'#'
    then some (record f { alt = true })
    else if c == b'0'
    then some (record f { zero_ = true })
    else if c == b'-'
    then some (record f { leftjustify = true })
    else if c == b' '
    then some (record f { spacepositive = true })
    else if c == b'+'
    then some (record f { pluspositive = true })
    else none

unfoldable pub process_flags : (format : List ℕ) → Flags → Flags × List ℕ
unfolding add_flag
process_flags [] f = (f, [])
process_flags (c ∷ format) f = elim (add_flag c f) [
  | none ↦ (f, c ∷ format)
  | some f' ↦ process_flags format f'
]

abbrev pub is_digit : ℕ → Bool
is_digit c = leb b'0' c && leb c b'9'

unfoldable pub decimal : (format : List ℕ) → ℕ → ℕ × List ℕ
decimal [] n = (n, [])
decimal (c ∷ format) n = elim (is_digit c) [
  | true ↦ decimal format (10 * n + c - b'0')
  | false ↦ (n, c ∷ format)
]

pub data Arg : Type 0 where
  word : ℕ → Arg
  text : List ℕ → Arg

-- `va_arg(val, int)`, and the same for the other types of 32 bits
abbrev pub va_word : List Arg → Option (ℕ × List Arg)
va_word [] = none
va_word (word n ∷ val) = some (n % u32, val)
va_word (text s ∷ val) = none

abbrev pub va_text : List Arg → Option (List ℕ × List Arg)
va_text [] = none
va_text (word n ∷ val) = none
va_text (text s ∷ val) = some (s, val)

-- An `int` that is negative does not pad, and as a precision it is made 0.
abbrev pub not_negative : ℕ → ℕ
not_negative n = if ltb n (2 ^ 31) then n else 0

unfoldable pub process_width : (format : List ℕ) (val : List Arg) → Option (ℕ × List ℕ × List Arg)
unfolding decimal
process_width [] val = some (0, [], val)
process_width (c ∷ format) val =
    if leb b'1' c && leb c b'9'
    then (let (width, rest) = decimal (c ∷ format) 0 in some (width, rest, val))
    else if c == b'*'
    then (va_word val >>= λ a. some (not_negative a.0, format, a.1))
    else some (0, c ∷ format, val)

-- what stands behind the dot
unfoldable pub after_dot : (format : List ℕ) (val : List Arg) → Option (ℕ × List ℕ × List Arg)
unfolding decimal
after_dot [] val = some (0, [], val)
after_dot (c ∷ format) val =
    if is_digit c
    then (let (precision, rest) = decimal (c ∷ format) 0 in some (precision, rest, val))
    else if c == b'*'
    then (va_word val >>= λ a. some (not_negative a.0, format, a.1))
    else some (0, c ∷ format, val)

unfoldable pub process_precision :
    (format : List ℕ) (val : List Arg) → Option (Option ℕ × List ℕ × List Arg)
unfolding after_dot
process_precision [] val = some (none, [], val)
process_precision (c ∷ format) val =
    if c == b'.'
    then (after_dot format val >>= λ r. some (some r.0, r.1, r.2))
    else some (none, c ∷ format, val)

-- What the main conversion character makes of the argument: a colour, or the flags, `base`, `num`
-- and `data`.
pub data Conversion : Type 0 where
  recolor : ℕ → Conversion
  shown : Flags → Base → (num : ℕ) → List ℕ → Conversion

abbrev pub base_10 : Base
base_10 = record { radix = 10; lower = false }

abbrev pub base_16 : Base
base_16 = record { radix = 16; lower = false }

-- -16
abbrev pub base_16_lower : Base
base_16_lower = record { radix = 16; lower = true }

-- numbuf with one character
abbrev pub one_char : ℕ → List ℕ
one_char c = if c == 0 then [] else c ∷ []

unfoldable pub format_unsigned : Flags → Base → (val : List Arg) → Option (Conversion × List Arg)
format_unsigned f b val = do
  a ← va_word val
  some (shown (record f { numeric = true }) b a.0 [], a.1)

unfoldable pub format_signed : Flags → (val : List Arg) → Option (Conversion × List Arg)
format_signed f val = do
  a ← va_word val
  let negative = leb (2 ^ 31) a.0
  let num = if negative then u32 - a.0 else a.0
  some (shown (record f { numeric = true; signed = true; negative = negative }) base_10 num [], a.1)

unfoldable pub format_pointer : Flags → (val : List Arg) → Option (Conversion × List Arg)
format_pointer f val = do
  a ← va_word val
  some (shown (record f { alt = true; alt2 = true; numeric = true }) base_16_lower a.0 [], a.1)

-- The switch. At the end of the format the default case shows the percent sign.
unfoldable pub convert :
    (format : List ℕ) → Flags → (val : List Arg) → Option (Conversion × List ℕ × List Arg)
unfolding format_unsigned format_signed format_pointer
convert [] f val = some (shown f base_10 0 (b'%' ∷ []), [], val)
convert (c ∷ format) f val =
    (if c == b'd'
      then format_signed f val
      else if c == b'u'
      then format_unsigned f base_10 val
      else if c == b'x'
      then format_unsigned f base_16_lower val
      else if c == b'X'
      then format_unsigned f base_16 val
      else if c == b'p'
      then format_pointer f val
      else if c == b's'
      then (va_text val >>= λ a. some (shown f base_10 0 a.0, a.1))
      else if c == b'C'
      then (va_word val >>= λ a. some (recolor a.0, a.1))
      else if c == b'c'
      then (va_word val >>= λ a. some (shown f base_10 0 (one_char (a.0 % 256)), a.1))
      else some (shown f base_10 0 (c ∷ []), val))
    >>= λ r. some (r.0, format, r.1)

-- A conversion, with the format and the arguments behind it.
pub record Directive : Type 0 where
  pub width : ℕ
  pub precision : Option ℕ
  pub conversion : Conversion
  pub rest : List ℕ
  pub val : List Arg

-- From behind the percent sign to the end of the switch.
unfoldable pub parse_directive : (format : List ℕ) (val : List Arg) → Option Directive
unfolding process_flags process_width process_precision convert
parse_directive format val = do
  let flagged = process_flags format no_flags
  w ← process_width flagged.1 val
  pr ← process_precision w.1 w.2
  c ← convert pr.1 flagged.0 pr.2
  some (record { width = w.0; precision = pr.0; conversion = c.0; rest = c.1; val = c.2 })
