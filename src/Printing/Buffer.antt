-- ===== src/Printing/Buffer.antt =====
-- pset6/lib.c: string_putc, vsnprintf and snprintf.
use cs61_psets.Common.{
  ℕ, zero, suc, ◌+◌, ◌-◌, ◌≤◌, ◌<◌, ◌≡◌, refl, ap, ◌∙◌, if_false, bind-some, ◌⊎◌, arith, Option,
  some, List, [], ◌∷◌, min, ltb, ltb→lt, Bool-cases, inl, inr, ◌==◌, if◌then◌else◌, length, get_or,
  ◌>>=◌,
}
use cs61_psets.Memory.{poke}
use cs61_psets.Memory.Move.{poke_same, poke_other}
use cs61_psets.Printing.{printer_vprintf}
use cs61_psets.Printing.Format.{Arg}
use cs61_psets.Printing.Feed.{Printed, printed, feed, printer_vprintf-feed}

-- The memory with the pointers `s` and `end` of a `string_printer`.
pub record StringPrinter : Type 0 where
  pub mem : ℕ → ℕ
  pub s : ℕ
  pub end : ℕ

unfoldable pub string_putc : StringPrinter → (c color : ℕ) → StringPrinter
string_putc sp c color =
    if ltb sp.s sp.end then record sp { mem = poke sp.mem sp.s c; s = sp.s + 1 } else sp

-- The memory and the number that is returned. `snprintf` passes its arguments on.
unfoldable pub vsnprintf :
    (mem : ℕ → ℕ) (s size : ℕ) (format : List ℕ) (val : List Arg) → Option ((ℕ → ℕ) × ℕ)
unfolding string_putc
vsnprintf mem s size format val = if size == 0 then some (mem, 0) else (do
  sp ← printer_vprintf string_putc (record { mem = mem; s = s; end = s + size - 1 }) 0 format val
  some (poke sp.mem sp.s 0, sp.s - s))

-- The buffer of `size` bytes at `s` holds the first characters of `out` with a zero byte, as many
-- as fit, and nothing else is written.
pub record Truncated (mem mem' : ℕ → ℕ) (s size : ℕ) (out : Printed) (n : ℕ) : Type 0 where
  pub count : n ≡ min (length out) (size - 1)
  pub bytes : (i : ℕ) → i < n → mem' (s + i) ≡ (get_or out i (0, 0)).0
  pub ends : mem' (s + n) ≡ 0
  pub kept : (a : ℕ) → (a < s) ⊎ (s + size ≤ a) → mem' a ≡ mem a

-- the same while the characters are handed over
record Fed (sp sp' : StringPrinter) (out : Printed) : Type 0 where
  stops : sp'.s ≡ sp.s + min (length out) (sp.end - sp.s)
  bytes :
      (i : ℕ) → i < min (length out) (sp.end - sp.s) → sp'.mem (sp.s + i) ≡ (get_or out i (0, 0)).0
  kept : (a : ℕ) → (a < sp.s) ⊎ (sp.end ≤ a) → sp'.mem a ≡ sp.mem a

feed_room :
    (c color : ℕ) (out : Printed) (sp sp' : StringPrinter)
    → sp.s < sp.end
    → Fed (record sp { mem = poke sp.mem sp.s c; s = sp.s + 1 }) sp' out
    → Fed sp sp' ((c, color) ∷ out)
feed_room c color out sp sp' room ih = record {
  stops = omega (arith, ih.stops, room);
  bytes = bytes;
  kept = λ a h. ih.kept a (kept_later a h) ∙ poke_other sp.mem sp.s a c (elsewhere a h);
}
  where
    kept_later : (a : ℕ) → (a < sp.s) ⊎ (sp.end ≤ a) → (a < sp.s + 1) ⊎ (sp.end ≤ a)
    kept_later a h = omega (arith, h)

    elsewhere : (a : ℕ) → (a < sp.s) ⊎ (sp.end ≤ a) → sp.s ≡ a → ⊥
    elsewhere a h e = omega (arith, h, room)

    bytes :
        (i : ℕ)
        → i < min (suc (length out)) (sp.end - sp.s)
        → sp'.mem (sp.s + i) ≡ (get_or ((c, color) ∷ out) i (0, 0)).0
    bytes zero h =
        ap sp'.mem (omega arith) ∙ ih.kept sp.s (inl (omega arith)) ∙ poke_same sp.mem sp.s c
    bytes (suc i) h = ap sp'.mem (omega arith) ∙ ih.bytes i (omega (arith, h))

feed_full :
    (out : Printed) (sp sp' : StringPrinter) (c color : ℕ)
    → sp.end ≤ sp.s
    → Fed sp sp' out
    → Fed sp sp' ((c, color) ∷ out)
feed_full out sp sp' c color full ih = record {
  stops = omega (arith, ih.stops, full);
  bytes = λ i h. absurd (omega (arith, h, full));
  kept = ih.kept;
}

feed-Fed : (out : Printed) (sp : StringPrinter) → Fed sp (feed string_putc sp out) out
unfolding feed string_putc
feed-Fed [] sp = record {
  stops = omega arith;
  bytes = λ i h. absurd (omega (arith, h));
  kept = λ a h. refl;
}
feed-Fed ((c, color) ∷ out) sp = elim (Bool-cases (ltb sp.s sp.end)) [
  | inl e ↦ rw e (feed_room c color out sp _ (ltb→lt _ _ e) (feed-Fed out _))
  | inr e ↦ rw e (feed_full out sp _ c color (ground (arith, e)) (feed-Fed out sp))
]

-- Where printer_vprintf prints `out` with the arguments, vsnprintf into a buffer that is not empty
-- returns, and the buffer holds as much of it as fits, with a zero byte behind it.
pub vsnprintf-Truncated :
    (mem : ℕ → ℕ) (s size : ℕ) (format : List ℕ) (val : List Arg) (out : Printed)
    → 0 < size
    → printed 0 format val ≡ some out
    → (r : (ℕ → ℕ) × ℕ) × (vsnprintf mem s size format val ≡ some r)
      × Truncated mem r.0 s size out r.1
unfolding vsnprintf
vsnprintf-Truncated mem s size format val out pos runs =
    let sp : StringPrinter = record { mem = mem; s = s; end = s + size - 1 } in
    let fed = feed-Fed out sp in
    let sp' = feed string_putc sp out in
    (
      (poke sp'.mem sp'.s 0, sp'.s - s),
      if_false {b = size == 0} _ _ (ground (arith, pos))
          ∙ bind-some (λ (sp : StringPrinter). some (poke sp.mem sp.s 0, sp.s - s))
              (printer_vprintf-feed string_putc sp 0 format val
                ∙ bind-some (λ out. some (feed string_putc sp out)) runs),
      record {
        count = omega (arith, fed.stops);
        bytes = λ i h.
            poke_other sp'.mem sp'.s (s + i) 0 (omega (arith, fed.stops, h))
            ∙ fed.bytes i (omega (arith, h, fed.stops));
        ends = ap (poke sp'.mem sp'.s 0) (omega (arith, fed.stops)) ∙ poke_same sp'.mem sp'.s 0;
        kept = λ a h.
            poke_other sp'.mem sp'.s a 0 (omega (arith, fed.stops, h, pos))
            ∙ fed.kept a (omega (arith, h, pos));
      },
    )
