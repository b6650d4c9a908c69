-- ===== src/Printing/Fuel.antt =====
-- The loop of `printer_vprintf` ends: every round uses characters of the format.
use cs61_psets.Common.{
  ℕ, zero, suc, ◌+◌, ◌*◌, ◌-◌, ◌≤◌, ◌≡◌, refl, sym, ◌∙◌, if_true, if_false, true, false, inl, inr,
  arith, Option, none, some, some-injective, List, [], ◌∷◌, ◌==◌, length, ◌>>=◌, bind-inv,
  Bool-cases, Option-cases,
}
use mathlib.Core.Path.{subst}
use cs61_psets.Printing.{put_conversion, vprintf_loop, printer_vprintf}
use cs61_psets.Printing.Format.{
  Flags, no_flags, Arg, Conversion, add_flag, process_flags, decimal, is_digit, process_width,
  after_dot, process_precision, convert, parse_directive, Directive,
}

-- what is left of a format after a part that shows its rest
rest_of {ℓ κ} :
    {A : Type ℓ} {B : Type κ} (a : A) (b : B) (format whole : List ℕ) {r : A × List ℕ × B}
    → length format ≤ length whole
    → some (a, format, b) ≡ some r
    → length r.1 ≤ length whole
rest_of a b format whole h e = subst (λ r. length r.1 ≤ length whole) (some-injective _ _ e) h

no_flag :
    (c : ℕ) (format : List ℕ) (f : Flags)
    → add_flag c f ≡ none
    → process_flags (c ∷ format) f ≡ (f, c ∷ format)
unfolding process_flags
no_flag c format f e =
    λ i. elim (e i) [ none ↦ (f, c ∷ format) | some f' ↦ process_flags format f' ]

one_flag :
    (c : ℕ) (format : List ℕ) (f f' : Flags)
    → add_flag c f ≡ some f'
    → process_flags (c ∷ format) f ≡ process_flags format f'
unfolding process_flags
one_flag c format f f' e =
    λ i. elim (e i) [ none ↦ (f, c ∷ format) | some f' ↦ process_flags format f' ]

length-process_flags :
    (format : List ℕ) (f : Flags) → length (process_flags format f).1 ≤ length format
unfolding process_flags
length-process_flags [] f = omega arith
length-process_flags (c ∷ format) f = elim (Option-cases (add_flag c f)) [
  | inl e ↦ rw (no_flag c format f e) (omega arith)
  | inr (f', e) ↦ rw (one_flag c format f f' e) (omega (arith, length-process_flags format f'))
]

length-decimal : (format : List ℕ) (n : ℕ) → length (decimal format n).1 ≤ length format
unfolding decimal
length-decimal [] n = omega arith
length-decimal (c ∷ format) n = elim (Bool-cases (is_digit c)) [
  | inl e ↦ ground (arith, e, length-decimal format ((10 * n + c) - b'0'))
  | inr e ↦ ground (arith, e)
]

length-process_width :
    (format : List ℕ) (val : List Arg) {r : ℕ × List ℕ × List Arg}
    → process_width format val ≡ some r
    → length r.1 ≤ length format
unfolding process_width
length-process_width [] val e = ground (arith, e)
length-process_width (c ∷ format) val e = ground (arith, e, length-decimal (c ∷ format) 0)

length-after_dot :
    (format : List ℕ) (val : List Arg) {r : ℕ × List ℕ × List Arg}
    → after_dot format val ≡ some r
    → length r.1 ≤ length format
unfolding after_dot
length-after_dot [] val e = ground (arith, e)
length-after_dot (c ∷ format) val e = ground (arith, e, length-decimal (c ∷ format) 0)

with_dot :
    (c : ℕ) (format : List ℕ) (val : List Arg) (r : Option ℕ × List ℕ × List Arg)
    → (after_dot format val >>= λ r. some (some r.0, r.1, r.2)) ≡ some r
    → length r.1 ≤ length (c ∷ format)
with_dot c format val r e =
    let (a, runs, is) =
      bind-inv (after_dot format val) (λ (r : ℕ × List ℕ × List Arg). some (some r.0, r.1, r.2))
        e in
    rest_of {A = Option ℕ} (some a.0) a.2 a.1 (c ∷ format)
      (omega (arith, length-after_dot format val runs)) is

length-process_precision :
    (format : List ℕ) (val : List Arg) {r : Option ℕ × List ℕ × List Arg}
    → process_precision format val ≡ some r
    → length r.1 ≤ length format
unfolding process_precision
length-process_precision [] val e = ground (arith, e)
length-process_precision (c ∷ format) val {r} e = elim (Bool-cases (c == b'.')) [
  | inl dot ↦ with_dot c format val r (sym (if_true _ _ dot) ∙ e)
  | inr no_dot ↦
      rest_of none val (c ∷ format) (c ∷ format) (omega arith) (sym (if_false _ _ no_dot) ∙ e)
]

length-convert :
    (format : List ℕ) (f : Flags) (val : List Arg) {r : Conversion × List ℕ × List Arg}
    → convert format f val ≡ some r
    → length r.1 ≤ length format
unfolding convert
length-convert [] f val e = ground (arith, e)
length-convert (c ∷ format) f val e =
    let (a, runs, is) = bind-inv _ (λ (r : Conversion × List Arg). some (r.0, format, r.1)) e in
    rest_of a.0 a.1 format (c ∷ format) (omega arith) is

-- A conversion begins behind the percent sign, so less is left than there was with the sign.
length-parse_directive :
    (format : List ℕ) (val : List Arg) {d : Directive}
    → parse_directive format val ≡ some d
    → length d.rest ≤ length format
unfolding parse_directive
length-parse_directive format val e =
    let fl = process_flags format no_flags in
    let (w, w_runs, e1) = bind-inv (process_width fl.1 val) _ e in
    let (pr, pr_runs, e2) = bind-inv (process_precision w.1 w.2) _ e1 in
    let (c, c_runs, e3) = bind-inv (convert pr.1 fl.0 pr.2) _ e2 in
    subst (λ (d : Directive). length d.rest ≤ length format) (some-injective _ _ e3)
      (omega (
        arith,
        length-process_flags format no_flags,
        length-process_width fl.1 val w_runs,
        length-process_precision w.1 w.2 pr_runs,
        length-convert pr.1 fl.0 pr.2 c_runs,
      ))

-- The rounds of the loop over the format, without fuel: the loop ends in the outcome `o`, `none`
-- for a round that fails, after a finite number of them.
pub data Rounds {P : Type 0} (putc : P → (c color : ℕ) → P) (o : Option P)
    : P → (color : ℕ) → List ℕ → List Arg → Type 0 where
  at_end : {p : P} {color : ℕ} {val : List Arg} → o ≡ some p → Rounds putc o p color [] val
  character :
      {p : P} {color : ℕ} {val : List Arg} {c : ℕ} {format : List ℕ}
      → (c == b'%') ≡ false
      → Rounds putc o (putc p c color) color format val
      → Rounds putc o p color (c ∷ format) val
  misread :
      {p : P} {color : ℕ} {val : List Arg} {c : ℕ} {format : List ℕ}
      → (c == b'%') ≡ true
      → parse_directive format val ≡ none
      → o ≡ none
      → Rounds putc o p color (c ∷ format) val
  overflows :
      {p : P} {color : ℕ} {val : List Arg} {c : ℕ} {format : List ℕ} {d : Directive}
      → (c == b'%') ≡ true
      → parse_directive format val ≡ some d
      → put_conversion putc p color d.width d.precision d.conversion ≡ none
      → o ≡ none
      → Rounds putc o p color (c ∷ format) val
  converts :
      {p : P} {color : ℕ} {val : List Arg} {c : ℕ} {format : List ℕ} {d : Directive} {r : P × ℕ}
      → (c == b'%') ≡ true
      → parse_directive format val ≡ some d
      → put_conversion putc p color d.width d.precision d.conversion ≡ some r
      → Rounds putc o r.0 r.1 d.rest d.val
      → Rounds putc o p color (c ∷ format) val

module _ {P : Type 0} (putc : P → (c color : ℕ) → P) where
  abbrev convert_next : ℕ → P → (color : ℕ) → List ℕ → List Arg → Option P
  convert_next fuel p color format val = parse_directive format val >>= λ d.
      put_conversion putc p color d.width d.precision d.conversion >>= λ r.
      vprintf_loop putc fuel r.0 r.1 d.rest d.val

  round-percent :
      (fuel : ℕ) (p : P) (color c : ℕ) (format : List ℕ) (val : List Arg)
      → (c == b'%') ≡ true
      → vprintf_loop putc (suc fuel) p color (c ∷ format) val ≡ convert_next fuel p color format val
  unfolding vprintf_loop
  round-percent fuel p color c format val e = λ i. elim (e i) [
    | false ↦ vprintf_loop putc fuel (putc p c color) color format val
    | true ↦ convert_next fuel p color format val
  ]

  round-character :
      (fuel : ℕ) (p : P) (color c : ℕ) (format : List ℕ) (val : List Arg)
      → (c == b'%') ≡ false
      → vprintf_loop putc (suc fuel) p color (c ∷ format) val
        ≡ vprintf_loop putc fuel (putc p c color) color format val
  unfolding vprintf_loop
  round-character fuel p color c format val e = λ i. elim (e i) [
    | false ↦ vprintf_loop putc fuel (putc p c color) color format val
    | true ↦ convert_next fuel p color format val
  ]

  at_nil :
      (fuel : ℕ) (p : P) (color : ℕ) (val : List Arg)
      → vprintf_loop putc fuel p color [] val ≡ some p
  unfolding vprintf_loop
  at_nil zero p color val = refl
  at_nil (suc fuel) p color val = refl

  vprintf_loop-Rounds :
      (fuel : ℕ) (p : P) (color : ℕ) (format : List ℕ) (val : List Arg)
      → length format ≤ fuel
      → Rounds putc (vprintf_loop putc fuel p color format val) p color format val
  vprintf_loop-Rounds fuel p color [] val h = at_end (at_nil fuel p color val)
  vprintf_loop-Rounds zero p color (c ∷ format) val h = absurd (omega arith)
  vprintf_loop-Rounds (suc fuel) p color (c ∷ format) val h = elim (Bool-cases (c == b'%')) [
    | inl percent ↦
        let start = round-percent fuel p color c format val percent in
        elim (Option-cases (parse_directive format val)) [
          | inl fails ↦ misread percent fails (start ∙ rw fails refl)
          | inr (d, reads) ↦
              elim (Option-cases (put_conversion putc p color d.width d.precision d.conversion)) [
                | inl fails ↦ overflows percent reads fails (start ∙ rw (reads, fails) refl)
                | inr (r, puts) ↦ converts percent reads puts (
                    subst (λ (o : Option P). Rounds putc o r.0 r.1 d.rest d.val)
                      (sym (start ∙ rw (reads, puts) refl))
                      (vprintf_loop-Rounds fuel r.0 r.1 d.rest d.val
                        (omega (arith, length-parse_directive format val reads))))
              ]
        ]
    | inr other ↦ character other (
        subst (λ (o : Option P). Rounds putc o (putc p c color) color format val)
          (sym (round-character fuel p color c format val other))
          (vprintf_loop-Rounds fuel (putc p c color) color format val (omega arith)))
  ]

-- The loop of printer_vprintf ends for every format and all arguments: the rounds over the format,
-- each of which begins where the one before stopped reading, come to its end, or to one that fails
-- since an argument is missing or of the other kind or since a number does not fit into numbuf; and
-- the outcome is that of printer_vprintf.
pub printer_vprintf-ends :
    {P : Type 0} (putc : P → (c color : ℕ) → P) (p : P) (color : ℕ) (format : List ℕ)
    (val : List Arg)
    → Rounds putc (printer_vprintf putc p color format val) p color format val
unfolding printer_vprintf
printer_vprintf-ends putc p color format val =
    vprintf_loop-Rounds putc (length format) p color format val (omega arith)
