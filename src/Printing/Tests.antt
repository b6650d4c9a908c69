-- ===== src/Printing/Tests.antt =====
-- The theorems on the formatted printing of pset6/lib.c at concrete formats.
use cs61_psets.Common.{ℕ, ◌-◌, ◌^◌, ◌≡◌, refl, arith, some, List, [], ◌∷◌, ◌++◌, true}
use cs61_psets.Common.Bytes.{u32}
use cs61_psets.Printing.{
  layout, printer_vprintf, vprintf_loop, put_all, put_times, put_field, put_conversion, show_field,
  prefix,
}
use cs61_psets.Printing.Format.{
  word, text, Flags, no_flags, parse_directive, convert, format_signed, format_unsigned,
  process_precision, after_dot, process_width, process_flags, add_flag, decimal,
}
use cs61_psets.Printing.Digits.{fill_numbuf, fill_digits, digit_char}
use cs61_psets.Printing.Numbuf.{Shows}
use cs61_psets.Printing.Fuel.{Rounds, printer_vprintf-ends}
use cs61_psets.Printing.Feed.{Printed, append_putc, printed}
use cs61_psets.Printing.Buffer.{StringPrinter, vsnprintf, Truncated, vsnprintf-Truncated}
use cs61_psets.Printing.Console.{
  Console, console_vprintf, Confined, Line, NoNewline, console_vprintf-Confined,
  console_vprintf-Line,
}
use cs61_psets.Printing.Padding.{Padded, layout-Padded}
use cs61_psets.Printing.Numbers.{
  signed_, letter, sign_of, magnitude, colored, base_of, print_number,
}

-- "<%-3u>"
abbrev in_brackets : List ℕ
in_brackets = b'<' ∷ b'%' ∷ b'-' ∷ b'3' ∷ b'u' ∷ b'>' ∷ []

-- what it makes of 42
abbrev bracketed : Printed
bracketed = (b'<', 0) ∷ (b'4', 0) ∷ (b'2', 0) ∷ (b' ', 0) ∷ (b'>', 0) ∷ []

printed-in_brackets : printed 0 in_brackets (word 42 ∷ []) ≡ some bracketed
unfolding printed printer_vprintf vprintf_loop put_conversion put_field put_all put_times show_field
    layout prefix fill_numbuf fill_digits digit_char parse_directive convert format_signed
    format_unsigned process_precision after_dot process_width process_flags add_flag decimal
printed-in_brackets = refl

-- "%+04d" of -5
signed_zeros :
    printed 0 (b'%' ∷ b'+' ∷ b'0' ∷ b'4' ∷ b'd' ∷ []) (word (u32 - 5) ∷ [])
    ≡ some ((b'-', 0) ∷ (b'0', 0) ∷ (b'0', 0) ∷ (b'5', 0) ∷ [])
unfolding printed printer_vprintf vprintf_loop put_conversion put_field put_all put_times show_field
    layout prefix fill_numbuf fill_digits digit_char parse_directive convert format_signed
    format_unsigned process_precision after_dot process_width process_flags add_flag decimal
signed_zeros = refl

-- "%.2s" of "abc"
cut_string :
    printed 0 (b'%' ∷ b'.' ∷ b'2' ∷ b's' ∷ []) (text (b'a' ∷ b'b' ∷ b'c' ∷ []) ∷ [])
    ≡ some ((b'a', 0) ∷ (b'b', 0) ∷ [])
unfolding printed printer_vprintf vprintf_loop put_conversion put_field put_all put_times show_field
    layout prefix fill_numbuf fill_digits digit_char parse_directive convert format_signed
    format_unsigned process_precision after_dot process_width process_flags add_flag decimal
cut_string = refl

printer_vprintf-ends_example :
    Rounds append_putc
      (printer_vprintf append_putc [] 0 in_brackets (word 42 ∷ []))
      []
      0
      in_brackets
      (word 42 ∷ [])
printer_vprintf-ends_example = printer_vprintf-ends append_putc [] 0 in_brackets (word 42 ∷ [])

abbrev buffer_at : (s end : ℕ) → StringPrinter
buffer_at s end = record { mem = λ a. 255; s = s; end = end }

-- five characters into a buffer of four bytes
vsnprintf-Truncated_example :
    (r : (ℕ → ℕ) × ℕ) × (vsnprintf (λ a. 255) 100 4 in_brackets (word 42 ∷ []) ≡ some r)
    × Truncated (λ a. 255) r.0 100 4 bracketed r.1
vsnprintf-Truncated_example =
    vsnprintf-Truncated (λ a. 255) 100 4 in_brackets (word 42 ∷ []) bracketed (omega arith)
      printed-in_brackets

abbrev dark : ℕ → ℕ
dark a = 0

-- from the last cell
console_vprintf-Confined_example :
    (after : Console) × (console_vprintf dark 1999 0 in_brackets (word 42 ∷ []) ≡ some after)
    × Confined (record { console = dark; cursor = 1999 }) after
console_vprintf-Confined_example =
    console_vprintf-Confined dark 1999 0 in_brackets (word 42 ∷ []) bracketed printed-in_brackets

no_newline : NoNewline bracketed
no_newline = ground arith

console_vprintf-Line_example :
    (after : Console) × (console_vprintf dark 80 0 in_brackets (word 42 ∷ []) ≡ some after)
    × Line (record { console = dark; cursor = 80 }) after bracketed
console_vprintf-Line_example =
    console_vprintf-Line dark 80 0 in_brackets (word 42 ∷ []) bracketed printed-in_brackets
      (omega arith) no_newline

abbrev left_number : Flags
left_number = record no_flags { numeric = true; leftjustify = true }

layout-Padded_example :
    Padded left_number 6
      (some 3)
      (b'-' ∷ [])
      (b'4' ∷ b'2' ∷ [])
      (layout left_number 6 (some 3) (b'-' ∷ []) (b'4' ∷ b'2' ∷ []))
layout-Padded_example = layout-Padded left_number 6 (some 3) (b'-' ∷ []) (b'4' ∷ b'2' ∷ [])

-- the least number
print_number_example :
    (digits : List ℕ) × (printed 7 (b'%' ∷ letter signed_ ∷ []) (word (2 ^ 31) ∷ [])
      ≡ some (colored 7 (sign_of signed_ (2 ^ 31) ++ digits)))
    × Shows (base_of signed_) (magnitude signed_ (2 ^ 31)) 23 digits
print_number_example = print_number signed_ 7 (2 ^ 31) (omega arith)
