-- ===== src/Shell/Token.antt =====
-- pset4/helpers.c: buildstring_append, isshellspecial and parse_shell_token.
-- A string is the list of its characters before the zero byte. A pointer into it is the rest from
-- there, in which reading at the end gives the zero byte.
pub mod Progress
pub mod Parse
mod Tests
use cs61_psets.Common.{
  ℕ, zero, suc, ◌+◌, ◌-◌, ◌*◌, Bool, true, false, Option, none, some, List, [], ◌∷◌, ◌++◌, ltb, leb,
  ◌==◌, ◌&&◌, ◌||◌, not, if◌then◌else◌, get_or, set, length, replicate, ◌>>=◌,
}

-- `buildstring`: `s` has `capacity` bytes.
pub record Buildstring : Type 0 where
  pub s : List ℕ
  pub length_ : ℕ
  pub capacity : ℕ

abbrev pub no_string : Buildstring
no_string = record { s = []; length_ = 0; capacity = 0 }

-- `realloc` leaves what was in the block; what the new part holds is written as zeros, and is
-- overwritten before it is read.
unfoldable pub buildstring_append : Buildstring → (ch : ℕ) → Buildstring
buildstring_append b ch =
    let grown =
      if b.length_ == b.capacity
      then (let new_capacity = if b.capacity == 0 then 32 else b.capacity * 2 in
          record b { s = b.s ++ replicate (new_capacity - b.capacity) 0; capacity = new_capacity })
      else b in
    record grown { s = set grown.s grown.length_ ch; length_ = grown.length_ + 1 }

-- the character at a pointer
abbrev pub peek : List ℕ → ℕ
peek str = get_or str 0 0

abbrev pub next : List ℕ → List ℕ
next [] = []
next (c ∷ cs) = cs

-- `isspace` and `isdigit` in the C locale
abbrev pub isspace : ℕ → Bool
isspace c = (c == 32) || (leb 9 c && leb c 13)

abbrev pub isdigit : ℕ → Bool
isdigit c = leb 48 c && leb c 57

unfoldable pub isshellspecial : ℕ → Bool
isshellspecial ch =
    (ch == 60)
    || (ch == 62)
    || (ch == 38)
    || (ch == 124)
    || (ch == 59)
    || (ch == 40)
    || (ch == 41)
    || (ch == 35)

-- TOKEN_NORMAL, ..., TOKEN_OTHER
pub data TokenType : Type 0 where
  token_normal token_redirection token_sequence token_background token_pipe token_and token_or :
      TokenType
  token_lparen token_rparen token_other : TokenType

unfoldable pub skip_spaces : List ℕ → List ℕ
skip_spaces [] = []
skip_spaces (c ∷ cs) = let rest = skip_spaces cs in if isspace c then rest else c ∷ cs

-- The loops over digits.
unfoldable pub read_digits : List ℕ → Buildstring → List ℕ × Buildstring
unfolding buildstring_append
read_digits [] b = ([], b)
read_digits (c ∷ cs) b =
    let rest = read_digits cs (buildstring_append b c) in if isdigit c then rest else (c ∷ cs, b)

-- The type that the `switch` gives to a special character.
unfoldable pub special_type : ℕ → TokenType
special_type c =
    if c == 59
    then token_sequence
    else if c == 38
    then token_background
    else if c == 124
    then token_pipe
    else if c == 40
    then token_lparen
    else if c == 41
    then token_rparen
    else token_other

-- `++str`; `none` is a pointer behind the zero byte.
abbrev pub advance : List ℕ → Option (List ℕ)
advance [] = none
advance (c ∷ cs) = some cs

-- The branch of a redirection.
unfoldable pub read_redirection : List ℕ → Buildstring → Option (List ℕ × Buildstring)
unfolding buildstring_append read_digits
read_redirection str b = do
  let b1 = buildstring_append b (peek str)
  let second = next str
  let (after, number) = read_digits (next second) (buildstring_append b1 (peek second))
  let (last, token) =
      if peek second == 62
      then (second, buildstring_append b1 62)
      else if (peek second == 38) && isdigit (peek (next second))
      then (after, number)
      else (str, b1)
  rest ← advance last
  some (rest, token)

-- The loop of a normal token, with the quote that is open, or 0.
unfoldable pub read_word : ℕ → List ℕ → (quoted : ℕ) → Buildstring → List ℕ × Buildstring
unfolding buildstring_append isshellspecial
read_word zero str quoted b = (str, b)
read_word (suc fuel) [] quoted b = ([], b)
read_word (suc fuel) (c ∷ cs) quoted b =
    let opened = read_word fuel cs c b in
    let closed = read_word fuel cs 0 b in
    let escaped = read_word fuel (next cs) quoted (buildstring_append b (peek cs)) in
    let plain = read_word fuel cs quoted (buildstring_append b c) in
    if (quoted == 0) && (isspace c || isshellspecial c)
    then (c ∷ cs, b)
    else if ((c == 34) || (c == 39)) && (quoted == 0)
    then opened
    else if c == quoted
    then closed
    else if (c == 92) && not (peek cs == 0) && not (quoted == 39)
    then escaped
    else plain

-- The rest of `parse_shell_token`, after the spaces and the digits.
unfoldable pub read_token : List ℕ → Buildstring → Option (List ℕ × (TokenType × Buildstring))
unfolding read_redirection read_word special_type isshellspecial buildstring_append
read_token str b =
    let c = peek str in
    let redirection = (do
      (rest, token) ← read_redirection str b
      some (rest, (token_redirection, token))) in
    let (rest, word) = read_word (length str) str 0 b in
    if (c == 60) || (c == 62)
    then redirection
    else if (b.length_ == 0) && ((c == 38) || (c == 124)) && (peek (next str) == c)
    then some (
      next (next str),
      ((if c == 38 then token_and else token_or), buildstring_append (buildstring_append b c) c),
    )
    else if (b.length_ == 0) && isshellspecial c
    then some (next str, (special_type c, buildstring_append b c))
    else some (rest, (token_normal, word))

-- `parse_shell_token`: the pointer that it returns, `none` for NULL, with the type and the token,
-- `none` for NULL. The outer `none` is a pointer that leaves the string.
unfoldable pub parse_shell_token :
    Option (List ℕ) → Option (Option (List ℕ) × (TokenType × Option (List ℕ)))
unfolding skip_spaces read_digits read_token buildstring_append
parse_shell_token none = some (none, (token_sequence, none))
parse_shell_token (some str) =
    let start = skip_spaces str in
    let (after, digits) = read_digits start no_string in
    let token = (do
      (rest, (type_, token)) ← read_token after digits
      some (some rest, (type_, some (buildstring_append token 0).s))) in
    if (peek start == 0) || (peek start == 35) then some (none, (token_sequence, none)) else token
