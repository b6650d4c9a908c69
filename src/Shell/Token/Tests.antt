-- ===== src/Shell/Token/Tests.antt =====
-- Runs of the tokenizer.
use cs61_psets.Common.{◌≡◌, refl, some, none, List, [], ◌∷◌, ℕ}
use cs61_psets.Shell.Token.{
  parse_shell_token, skip_spaces, read_digits, read_token, read_redirection, read_word,
  isshellspecial, buildstring_append,
}

-- " && a"
abbrev and_then : List ℕ
and_then = 32 ∷ 38 ∷ 38 ∷ 32 ∷ 97 ∷ []

-- "2>&1"
abbrev to_stdout : List ℕ
to_stdout = 50 ∷ 62 ∷ 38 ∷ 49 ∷ []

-- the pointer moves behind the zero byte after the digits of a redirection to a descriptor
redirection_leaves : parse_shell_token (some to_stdout) ≡ none
unfolding parse_shell_token skip_spaces read_digits read_token read_redirection read_word
    buildstring_append isshellspecial
redirection_leaves = refl
