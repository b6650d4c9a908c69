-- ===== src/Printing/Console.antt =====
-- pset6/lib.c: console_putc, console_vprintf, console_printf and console_clear, over the 2000 cells
-- of `console`, which are numbers of 16 bits.
use cs61_psets.Common.{
  ℕ, zero, suc, ◌+◌, ◌-◌, ◌%◌, ◌^◌, ◌≤◌, ◌<◌, ◌⊎◌, ◌≡◌, ◌≢◌, refl, ap, ◌∙◌, bind-some, if_false,
  inl, inr, arith, Option, some, List, [], ◌∷◌, leb, ◌==◌, if◌then◌else◌, put, put_same, put_other,
  Bool-cases, length, get_or,
}
use Prim.Native.Nat.{bit_or}
use cs61_psets.Printing.{printer_vprintf}
use cs61_psets.Printing.Format.{Arg}
use cs61_psets.Printing.Feed.{Printed, printed, feed, printer_vprintf-feed}

-- CONSOLE_ROWS * CONSOLE_COLUMNS
abbrev pub console_cells : ℕ
console_cells = 2000

-- `cursor - console`
pub record Console : Type 0 where
  pub console : ℕ → ℕ
  pub cursor : ℕ

-- `*cp->cursor++ = c | color`
unfoldable pub put_cell : Console → (c color : ℕ) → Console
put_cell cp c color = record {
  console = put cp.console cp.cursor (bit_or c color % 2 ^ 16);
  cursor = cp.cursor + 1;
}

-- the loop that fills the rest of a line
unfoldable pub blank_rest : ℕ → Console → (color : ℕ) → Console
unfolding put_cell
blank_rest zero cp color = cp
blank_rest (suc n) cp color = blank_rest n (put_cell cp b' ' color) color

unfoldable pub wrap : Console → Console
wrap cp = if leb console_cells cp.cursor then record cp { cursor = 0 } else cp

unfoldable pub console_putc : Console → (c color : ℕ) → Console
unfolding wrap put_cell blank_rest
console_putc cp c color =
    let cp' = wrap cp in
    if c == b'\n' then blank_rest (80 - cp'.cursor % 80) cp' color else put_cell cp' c color

-- The console, with the position that is returned as its cursor. A `cpos` below 0 is a pattern of
-- 32 bits from 2 ^ 31 on. `console_printf` passes its arguments on.
unfoldable pub console_vprintf :
    (console : ℕ → ℕ) (cpos color : ℕ) (format : List ℕ) (val : List Arg) → Option Console
unfolding console_putc
console_vprintf console cpos color format val =
    printer_vprintf console_putc
      (record { console = console; cursor = if leb console_cells cpos then 0 else cpos }) color
      format val

-- The loop of `console_clear`, from cell `i` on; it also sets `cursorpos` to 0.
unfoldable pub clear_from : (left i : ℕ) → (ℕ → ℕ) → ℕ → ℕ
clear_from zero i console = console
clear_from (suc left) i console = clear_from left (i + 1) (put console i (bit_or b' ' 1792))

unfoldable pub console_clear : (ℕ → ℕ) → Console
unfolding clear_from
console_clear console = record { console = clear_from console_cells 0 console; cursor = 0 }

-- The cursor is at most at the end of the console, and no cell behind it was written.
pub record Confined (before after : Console) : Type 0 where
  pub cursor : after.cursor ≤ console_cells
  pub outside : (a : ℕ) → console_cells ≤ a → after.console a ≡ before.console a

Confined-trans : {a b c : Console} → Confined a b → Confined b c → Confined a c
Confined-trans h k = record { cursor = k.cursor; outside = λ i o. k.outside i o ∙ h.outside i o }

put_cell-Confined :
    (cp : Console) (c color : ℕ) → cp.cursor < console_cells → Confined cp (put_cell cp c color)
unfolding put_cell
put_cell-Confined cp c color h = record {
  cursor = omega arith;
  outside = λ a o. put_other cp.console cp.cursor a _ λ e. omega (arith, o, e, h);
}

blank_rest-Confined :
    (n : ℕ) (cp : Console) (color : ℕ)
    → cp.cursor + n ≤ console_cells
    → Confined cp (blank_rest n cp color)
unfolding blank_rest
blank_rest-Confined zero cp color h = record { cursor = omega arith; outside = λ a o. refl }
blank_rest-Confined (suc n) cp color h =
    Confined-trans (put_cell-Confined cp b' ' color (omega arith))
      (blank_rest-Confined n (put_cell cp b' ' color) color (omega (arith, h)))

wrap-below : (cp : Console) → (wrap cp).cursor < console_cells
unfolding wrap
wrap-below cp = ground arith

wrap-console : (cp : Console) → (wrap cp).console ≡ cp.console
unfolding wrap
wrap-console cp = elim (Bool-cases (leb console_cells cp.cursor)) [
  | inl e ↦ rw e refl
  | inr e ↦ rw e refl
]

-- a line has 80 cells, and there are 25 of them
line_left : (n : ℕ) → n < console_cells → n + (80 - n % 80) ≤ console_cells
line_left n h = omega arith

wrap-Confined : (cp after : Console) → Confined (wrap cp) after → Confined cp after
wrap-Confined cp after h = record {
  cursor = h.cursor;
  outside = λ a o. h.outside a o ∙ ap (λ (f : ℕ → ℕ). f a) (wrap-console cp);
}

console_putc-Confined : (cp : Console) (c color : ℕ) → Confined cp (console_putc cp c color)
unfolding console_putc
console_putc-Confined cp c color = elim (Bool-cases (c == b'\n')) [
  | inl e ↦
      rw e
        (wrap-Confined cp _ (blank_rest-Confined _ (wrap cp) color (line_left _ (wrap-below cp))))
  | inr e ↦ rw e (wrap-Confined cp _ (put_cell-Confined (wrap cp) c color (wrap-below cp)))
]

feed-Confined :
    (out : Printed) (cp : Console)
    → cp.cursor ≤ console_cells
    → Confined cp (feed console_putc cp out)
unfolding feed
feed-Confined [] cp h = record { cursor = h; outside = λ a o. refl }
feed-Confined ((c, color) ∷ out) cp h =
    let one = console_putc-Confined cp c color in
    Confined-trans one (feed-Confined out (console_putc cp c color) one.cursor)

abbrev pub start_cell : (cpos : ℕ) → ℕ
start_cell cpos = if leb console_cells cpos then 0 else cpos

start_cell-below : (cpos : ℕ) → start_cell cpos < console_cells
start_cell-below cpos = ground arith

-- what `console_vprintf` leaves, from what is printed
console_vprintf-feed :
    (console : ℕ → ℕ) (cpos color : ℕ) (format : List ℕ) (val : List Arg) (out : Printed)
    → printed color format val ≡ some out
    → console_vprintf console cpos color format val
      ≡ some (feed console_putc (record { console = console; cursor = start_cell cpos }) out)
unfolding console_vprintf
console_vprintf-feed console cpos color format val out runs =
    printer_vprintf-feed console_putc _ color format val
    ∙ bind-some
        (λ out.
          some (feed console_putc (record { console = console; cursor = start_cell cpos }) out))
        runs

-- Where printer_vprintf prints something with the arguments, console_vprintf returns from any
-- position, also one that is not on the console, it writes no cell outside of the console, and it
-- returns a position on the console or at its end.
pub console_vprintf-Confined :
    (console : ℕ → ℕ) (cpos color : ℕ) (format : List ℕ) (val : List Arg) (out : Printed)
    → printed color format val ≡ some out
    → (after : Console) × (console_vprintf console cpos color format val ≡ some after)
      × Confined (record { console = console; cursor = start_cell cpos }) after
console_vprintf-Confined console cpos color format val out runs = (
  feed console_putc (record { console = console; cursor = start_cell cpos }) out,
  console_vprintf-feed console cpos color format val out runs,
  feed-Confined out _ (omega (arith, start_cell-below cpos)),
)

-- `out` stands on the console from the cursor on, and nothing else was written
pub record Line (before after : Console) (out : Printed) : Type 0 where
  pub cursor : after.cursor ≡ before.cursor + length out
  pub cells :
      (i : ℕ)
      → i < length out
      → after.console (before.cursor + i)
        ≡ bit_or (get_or out i (0, 0)).0 (get_or out i (0, 0)).1 % 2 ^ 16
  pub kept :
      (a : ℕ)
      → (a < before.cursor) ⊎ (before.cursor + length out ≤ a)
      → after.console a ≡ before.console a

abbrev pub NoNewline : Printed → Type 0
NoNewline [] = Unit
NoNewline ((c, color) ∷ out) = (c ≢ b'\n') × NoNewline out

wrap-same : (cp : Console) → cp.cursor < console_cells → wrap cp ≡ cp
unfolding wrap
wrap-same cp h = if_false {b = leb console_cells cp.cursor} _ _ (ground (arith, h))

putc-cell :
    (cp : Console) (c color : ℕ)
    → cp.cursor < console_cells
    → c ≢ b'\n'
    → console_putc cp c color ≡ put_cell cp c color
unfolding console_putc
putc-cell cp c color h nl = rw (wrap-same cp h) (if_false {b = c == b'\n'} _ _ (ground (arith, nl)))

Line-cons :
    (c color : ℕ) (out : Printed) (cp after : Console)
    → Line (put_cell cp c color) after out
    → Line cp after ((c, color) ∷ out)
unfolding put_cell
Line-cons c color out cp after ih = record {
  cursor = omega (arith, ih.cursor);
  cells = cells;
  kept = λ a h.
      ih.kept a (omega (arith, h)) ∙ put_other cp.console cp.cursor a _ (λ e. omega (arith, e, h));
}
  where
    cells :
        (i : ℕ)
        → i < suc (length out)
        → after.console (cp.cursor + i)
          ≡ bit_or (get_or ((c, color) ∷ out) i (0, 0)).0 (get_or ((c, color) ∷ out) i (0, 0)).1
            % 2 ^ 16
    cells zero h =
        ap after.console (omega arith)
        ∙ ih.kept cp.cursor (inl (omega arith))
        ∙ put_same cp.console cp.cursor _
    cells (suc i) h = ap after.console (omega arith) ∙ ih.cells i (omega arith)

after_cell :
    (cp : Console) (c color n : ℕ)
    → cp.cursor + suc n ≤ console_cells
    → (put_cell cp c color).cursor + n ≤ console_cells
unfolding put_cell
after_cell cp c color n h = omega (arith, h)

feed-Line :
    (out : Printed) (cp : Console)
    → cp.cursor + length out ≤ console_cells
    → NoNewline out
    → Line cp (feed console_putc cp out) out
unfolding feed
feed-Line [] cp h nl = record {
  cursor = omega arith;
  cells = λ i h. absurd (omega (arith, h));
  kept = λ a h. refl;
}
feed-Line ((c, color) ∷ out) cp h nl = rw (putc-cell cp c color (omega (arith, h)) nl.0) (
    Line-cons c color out cp _
      (feed-Line out (put_cell cp c color) (after_cell cp c color (length out) h) nl.1))

-- Where printer_vprintf prints characters without a newline, and they fit on the console behind the
-- position, console_vprintf puts exactly them there, each with its colour, and returns the position
-- behind them.
pub console_vprintf-Line :
    (console : ℕ → ℕ) (cpos color : ℕ) (format : List ℕ) (val : List Arg) (out : Printed)
    → printed color format val ≡ some out
    → start_cell cpos + length out ≤ console_cells
    → NoNewline out
    → (after : Console) × (console_vprintf console cpos color format val ≡ some after)
      × Line (record { console = console; cursor = start_cell cpos }) after out
console_vprintf-Line console cpos color format val out runs fits nl = (
  feed console_putc (record { console = console; cursor = start_cell cpos }) out,
  console_vprintf-feed console cpos color format val out runs,
  feed-Line out _ fits nl,
)
