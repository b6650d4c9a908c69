-- ===== src/Printing.antt =====
-- pset6/lib.c: printer_vprintf, on top of fill_numbuf and the reading of a conversion.
-- A format is the list of its bytes before the zero byte, an argument of `va_arg` a pattern of 32
-- bits or a string; one that is missing or of the other kind is `none`. A printer is a state with
-- its `putc`. A width or a precision that is written out does not reach 2 ^ 31.
pub mod Digits
pub mod Format
pub mod Numbuf
pub mod Feed
pub mod Padding
pub mod Buffer
pub mod Console
pub mod Fuel
pub mod Numbers
mod Tests
use cs61_psets.Common.{
  ℕ, zero, suc, ◌+◌, ◌-◌, ◌*◌, ◌/◌, ◌%◌, ◌^◌, min, Bool, true, false, Option, none, some, List, [],
  ◌∷◌, ltb, leb, ◌==◌, ◌&&◌, ◌||◌, not, if◌then◌else◌, length, take, ◌>>=◌,
}
use cs61_psets.Common.Bytes.{u32}
use cs61_psets.Printing.Digits.{Base, fill_numbuf}
use cs61_psets.Printing.Format.{Flags, Arg, Conversion, parse_directive, recolor, shown}

-- `prefix`
unfoldable pub prefix : Flags → Base → (num : ℕ) → List ℕ
prefix f b num =
    if f.numeric && f.signed
    then (if f.negative
        then b'-' ∷ []
        else if f.pluspositive
        then b'+' ∷ []
        else if f.spacepositive
        then b' ' ∷ []
        else [])
    else if f.numeric && f.alt && (b.radix == 16) && (not (num == 0) || f.alt2)
    then b'0' ∷ (if b.lower then b'x' else b'X') ∷ []
    else []

-- What is printed for one conversion: spaces, prefix, zeros, the first characters of `data`, spaces.
pub record Field : Type 0 where
  pub left : ℕ
  pub before : List ℕ
  pub zeros : ℕ
  pub body : List ℕ
  pub right : ℕ

-- `len`, `zeros` and what is left of `width`
unfoldable pub layout : Flags → (width : ℕ) (precision : Option ℕ) (before data_ : List ℕ) → Field
layout f width precision before data_ =
    let len : ℕ = elim precision as (λ _. ℕ) [
      | none ↦ length data_
      | some p ↦ if f.numeric then length data_ else min p (length data_)
    ] in
    let filled : ℕ =
      if f.zero_ && not f.leftjustify && ltb (len + length before) width
      then width - len - length before
      else 0 in
    let zeros : ℕ =
      if f.numeric
      then (elim precision as (λ _. ℕ) [
        | none ↦ filled
        | some p ↦ if ltb len p then p - len else 0
      ])
      else 0 in
    let spaces : ℕ = width - (len + zeros + length before) in
    record {
      left = if f.leftjustify then 0 else spaces;
      before = before;
      zeros = zeros;
      body = take len data_;
      right = if f.leftjustify then spaces else 0;
    }

-- `fill_numbuf` for a number, and the field
unfoldable pub show_field :
    Flags → Base → (num : ℕ) (data_ : List ℕ) (width : ℕ) (precision : Option ℕ) → Option Field
unfolding fill_numbuf prefix layout
show_field f b num data_ width precision = do
  s ← if f.numeric then fill_numbuf num b else some data_
  some (layout f width precision (prefix f b num) s)

module _ {ℓ} {P : Type ℓ} (putc : P → (c color : ℕ) → P) where
  unfoldable pub put_times : ℕ → P → (c color : ℕ) → P
  put_times zero p c color = p
  put_times (suc n) p c color = put_times n (putc p c color) c color

  unfoldable pub put_all : List ℕ → P → (color : ℕ) → P
  put_all [] p color = p
  put_all (c ∷ cs) p color = put_all cs (putc p c color) color

  unfoldable pub put_field : Field → P → (color : ℕ) → P
  unfolding put_times put_all
  put_field f p color =
      let p1 = put_all f.before (put_times f.left p b' ' color) color in
      put_times f.right (put_all f.body (put_times f.zeros p1 b'0' color) color) b' ' color

  -- The colour of the next characters, or the field of the conversion.
  unfoldable pub put_conversion :
      P → (color width : ℕ) (precision : Option ℕ) → Conversion → Option (P × ℕ)
  unfolding show_field put_field
  put_conversion p color width precision (recolor color') = some (p, color')
  put_conversion p color width precision (shown f b num data_) = do
    field ← show_field f b num data_ width precision
    some (put_field field p color, color)

  -- The loop over the format.
  unfoldable pub vprintf_loop : ℕ → P → (color : ℕ) (format : List ℕ) (val : List Arg) → Option P
  unfolding parse_directive put_conversion
  vprintf_loop fuel p color [] val = some p
  vprintf_loop zero p color (c ∷ format) val = none
  vprintf_loop (suc fuel) p color (c ∷ format) val = elim (c == b'%') [
    | false ↦ vprintf_loop fuel (putc p c color) color format val
    | true ↦ do
      d ← parse_directive format val
      r ← put_conversion p color d.width d.precision d.conversion
      vprintf_loop fuel r.0 r.1 d.rest d.val
  ]

  unfoldable pub printer_vprintf : P → (color : ℕ) (format : List ℕ) (val : List Arg) → Option P
  unfolding vprintf_loop
  printer_vprintf p color format val = vprintf_loop (length format) p color format val
