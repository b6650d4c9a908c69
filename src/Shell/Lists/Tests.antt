-- ===== src/Shell/Lists/Tests.antt =====
-- The line `a < f | b && cd d ; c &`, as a line of the grammar and as a string.
use cs61_psets.Common.{◌+◌, ◌≡◌, refl, true, false, some, [], ◌∷◌}
use cs61_psets.Shell.Lists.{fresh, whole_group, build, read_tokens, parse_line}
use cs61_psets.Shell.Lists.Grammar.{
  input, word, redirect, one, pipe_to, only, link, Line, final, then_, print_line, lists_of,
}
use cs61_psets.Shell.Lists.Reading.{build-print_line}
use cs61_psets.Shell.Lists.Tokens.{Calls, read_tokens-ends}

abbrev line : Line
line =
    then_
      (link
        (pipe_to (record { first = word (97 ∷ []); others = redirect input (102 ∷ []) ∷ [] })
          (one (record { first = word (98 ∷ []); others = [] })))
        false (only (one (record { first = word (99 ∷ 100 ∷ []); others = word (100 ∷ []) ∷ [] }))))
      false (final (only (one (record { first = word (99 ∷ []); others = [] }))) (some true))

build-print_line_example : whole_group (build (print_line line) fresh) ≡ lists_of line
build-print_line_example = build-print_line line

-- `parse_line` on the string
parses :
    parse_line (97 ∷ 60 ∷ 102 ∷ 124 ∷ 98 ∷ 38 ∷ 38 ∷ 99 ∷ 100 ∷ 32 ∷ 100 ∷ 59 ∷ 99 ∷ 38 ∷ [])
    ≡ some (lists_of line)
unfolding parse_line
parses = refl

read_tokens-ends_example : Calls (read_tokens (2 + 1) (some (97 ∷ 38 ∷ []))) (97 ∷ 38 ∷ [])
read_tokens-ends_example = read_tokens-ends (97 ∷ 38 ∷ [])
