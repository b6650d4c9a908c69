-- ===== src/Printing/Feed.antt =====
-- Every printer is handed the same characters.
use cs61_psets.Common.{
  ℕ, zero, suc, ◌≡◌, refl, sym, ap, ◌∙◌, true, false, Option, none, some, List, [], ◌∷◌, ◌++◌, ◌==◌,
  length, ◌>>=◌, Bool-cases, inl, inr,
}
use cs61_psets.Printing.{
  Field, show_field, put_times, put_all, put_field, put_conversion, vprintf_loop, printer_vprintf,
}
use cs61_psets.Printing.Format.{Arg, recolor, shown, Directive, Conversion, parse_directive}

-- the list of what was handed over, in order
abbrev pub Printed : Type 0
Printed = List (ℕ × ℕ)

abbrev pub append_putc : Printed → (c color : ℕ) → Printed
append_putc out c color = out ++ ((c, color) ∷ [])

-- Everything that printer_vprintf prints, with its colours.
unfoldable pub printed : (color : ℕ) (format : List ℕ) (val : List Arg) → Option Printed
printed color format val = printer_vprintf append_putc [] color format val

unfoldable pub feed : {P : Type 0} → (P → ℕ → ℕ → P) → P → Printed → P
feed putc p [] = p
feed putc p ((c, color) ∷ out) = feed putc (putc p c color) out

feed-append_putc :
    {P : Type 0} (putc : P → ℕ → ℕ → P) (p : P) (out : Printed) (c color : ℕ)
    → feed putc p (append_putc out c color) ≡ putc (feed putc p out) c color
unfolding feed
feed-append_putc putc p [] c color = refl
feed-append_putc putc p ((d, k) ∷ out) c color = feed-append_putc putc (putc p d k) out c color

-- The two kinds of a round of the loop.
module _ {P : Type 0} (putc : P → ℕ → ℕ → P) (fuel : ℕ) (p : P) (color : ℕ) where
  abbrev pub after_percent : Option Directive → Option P
  after_percent o = do
    d ← o
    r ← put_conversion putc p color d.width d.precision d.conversion
    vprintf_loop putc fuel r.0 r.1 d.rest d.val

  pub percent_round :
      (c : ℕ) (format : List ℕ) (val : List Arg)
      → (c == b'%') ≡ true
      → vprintf_loop putc (suc fuel) p color (c ∷ format) val
        ≡ after_percent (parse_directive format val)
  unfolding vprintf_loop
  percent_round c format val e = λ i. elim (e i) [
    | false ↦ vprintf_loop putc fuel (putc p c color) color format val
    | true ↦ after_percent (parse_directive format val)
  ]

  pub char_round :
      (c : ℕ) (format : List ℕ) (val : List Arg)
      → (c == b'%') ≡ false
      → vprintf_loop putc (suc fuel) p color (c ∷ format) val
        ≡ vprintf_loop putc fuel (putc p c color) color format val
  unfolding vprintf_loop
  char_round c format val e = λ i. elim (e i) [
    | false ↦ vprintf_loop putc fuel (putc p c color) color format val
    | true ↦ after_percent (parse_directive format val)
  ]

-- A map between two printers that respects their `putc` respects what is printed with them.
module _ {S : Type 0} {P : Type 0} (put_s : S → ℕ → ℕ → S) (put_p : P → ℕ → ℕ → P) (h : S → P)
    (commutes : (s : S) (c color : ℕ) → h (put_s s c color) ≡ put_p (h s) c color) where
  put_times_map :
      (n : ℕ) (s : S) (c color : ℕ)
      → h (put_times put_s n s c color) ≡ put_times put_p n (h s) c color
  unfolding put_times
  put_times_map zero s c color = refl
  put_times_map (suc n) s c color =
      rw (← commutes s c color) (put_times_map n (put_s s c color) c color)

  put_all_map :
      (cs : List ℕ) (s : S) (color : ℕ)
      → h (put_all put_s cs s color) ≡ put_all put_p cs (h s) color
  unfolding put_all
  put_all_map [] s color = refl
  put_all_map (c ∷ cs) s color = rw (← commutes s c color) (put_all_map cs (put_s s c color) color)

  put_field_map :
      (f : Field) (s : S) (color : ℕ)
      → h (put_field put_s f s color) ≡ put_field put_p f (h s) color
  unfolding put_field
  put_field_map f s color = simp (put_times_map, put_all_map) refl

  abbrev on_state : S × ℕ → Option (P × ℕ)
  on_state r = some (h r.0, r.1)

  shown_field :
      (o : Option Field) (s : S) (color : ℕ)
      → ◌>>=◌ {B = P × ℕ} o (λ fi. some (put_field put_p fi (h s) color, color))
        ≡ (◌>>=◌ {B = S × ℕ} o (λ fi. some (put_field put_s fi s color, color)) >>= on_state)
  shown_field none s color = refl
  shown_field (some fi) s color = rw (put_field_map fi s color) refl

  put_conversion_map :
      (s : S) (color w : ℕ) (pr : Option ℕ) (c : Conversion)
      → put_conversion put_p (h s) color w pr c ≡ (put_conversion put_s s color w pr c >>= on_state)
  unfolding put_conversion
  put_conversion_map s color w pr (recolor k) = refl
  put_conversion_map s color w pr (shown f b n d) = shown_field (show_field f b n d w pr) s color

  abbrev Maps : ℕ → Type 0
  Maps fuel =
      (s : S) (color : ℕ) (format : List ℕ) (val : List Arg)
      → vprintf_loop put_p fuel (h s) color format val
        ≡ (vprintf_loop put_s fuel s color format val >>= λ r. some (h r))

  on_printer :
      (fuel : ℕ) (ih : Maps fuel) (d : Directive) (o : Option (S × ℕ))
      → (◌>>=◌ {B = P × ℕ} o on_state >>= λ r. vprintf_loop put_p fuel r.0 r.1 d.rest d.val)
        ≡ (◌>>=◌ {B = S} o (λ r. vprintf_loop put_s fuel r.0 r.1 d.rest d.val) >>= λ r. some (h r))
  on_printer fuel ih d none = refl
  on_printer fuel ih d (some (s, color)) = ih s color d.rest d.val

  on_directive :
      (fuel : ℕ) (ih : Maps fuel) (s : S) (color : ℕ) (o : Option Directive)
      → after_percent put_p fuel (h s) color o
        ≡ (after_percent put_s fuel s color o >>= λ r. some (h r))
  on_directive fuel ih s color none = refl
  on_directive fuel ih s color (some d) =
      rw (put_conversion_map s color d.width d.precision d.conversion)
        (on_printer fuel ih d (put_conversion put_s s color d.width d.precision d.conversion))

  vprintf_loop_map :
      (fuel : ℕ) (s : S) (color : ℕ) (format : List ℕ) (val : List Arg)
      → vprintf_loop put_p fuel (h s) color format val
        ≡ (vprintf_loop put_s fuel s color format val >>= λ r. some (h r))
  unfolding vprintf_loop
  vprintf_loop_map fuel s color [] val = refl
  vprintf_loop_map zero s color (c ∷ format) val = refl
  vprintf_loop_map (suc fuel) s color (c ∷ format) val = elim (Bool-cases (c == b'%')) [
    | inl e ↦
        percent_round put_p fuel (h s) color c format val e
        ∙ on_directive fuel (vprintf_loop_map fuel) s color (parse_directive format val)
        ∙ ap (λ (o : Option S). o >>= λ r. some (h r))
            (sym (percent_round put_s fuel s color c format val e))
    | inr e ↦
        char_round put_p fuel (h s) color c format val e
        ∙ rw (← commutes s c color) (vprintf_loop_map fuel (put_s s c color) color format val)
        ∙ ap (λ (o : Option S). o >>= λ r. some (h r))
            (sym (char_round put_s fuel s color c format val e))
  ]

-- printer_vprintf hands the characters that it prints to every printer one after the other.
pub printer_vprintf-feed :
    {P : Type 0} (putc : P → ℕ → ℕ → P) (p : P) (color : ℕ) (format : List ℕ) (val : List Arg)
    → printer_vprintf putc p color format val
      ≡ (printed color format val >>= λ out. some (feed putc p out))
unfolding printer_vprintf printed feed
printer_vprintf-feed putc p color format val =
    vprintf_loop_map append_putc putc (feed putc p) (feed-append_putc putc p) (length format) []
      color format val
