-- ===== src/Shell/Lists/Tokens.antt =====
-- The calls of `parse_shell_token` that `eval_line` makes come to an end.
use cs61_psets.Common.{
  ℕ, zero, suc, ◌+◌, ◌<◌, ◌≡◌, refl, sym, ap, ◌∙◌, arith, inl, inr, Bool-cases, Option-cases,
  Option, none, some, some-injective, List, [], ◌∷◌, ◌==◌, ◌||◌, ◌>>=◌, bind-inv, if_true, if_false,
  length,
}
use mathlib.Core.Path.{subst}
use mathlib.Core.Option.{none-ne-some, some-ne-none}
use cs61_psets.Shell.Token.{
  TokenType, parse_shell_token, skip_spaces, read_digits, read_token, no_string, peek,
  buildstring_append,
}
use cs61_psets.Shell.Token.Parse.{Shortens, parse_shell_token-Shortens}
use cs61_psets.Shell.Lists.{Token, string_of, read_tokens}

-- The calls of `parse_shell_token` from the pointer `str` on, without fuel: after a finite number of
-- them the pointer is NULL, and `o` holds the tokens before, or one of them leaves the string, and
-- `o` is `none`.
pub data Calls : Option (List Token) → List ℕ → Type 0 where
  stops :
      {o : Option (List Token)} {str : List ℕ} {type_ : TokenType} {token : Option (List ℕ)}
      → parse_shell_token (some str) ≡ some (none, (type_, token))
      → o ≡ some []
      → Calls o str
  leaves :
      {o : Option (List Token)} {str : List ℕ}
      → parse_shell_token (some str) ≡ none
      → o ≡ none
      → Calls o str
  goes_on :
      {o more : Option (List Token)} {str rest : List ℕ} {type_ : TokenType} {block : List ℕ}
      → parse_shell_token (some str) ≡ some (some rest, (type_, some block))
      → o ≡ (more >>= λ ts. some (record { type_ = type_; text = string_of block } ∷ ts))
      → Calls more rest
      → Calls o str

-- a pointer that is not NULL comes with a token
parse-token :
    (str rest : List ℕ) (type_ : TokenType)
    → parse_shell_token (some str) ≡ some (some rest, (type_, none))
    → ⊥
unfolding parse_shell_token
parse-token str rest type_ e =
    let start = skip_spaces str in
    elim (Bool-cases ((peek start == 0) || (peek start == 35))) [
      | inl ends ↦ none-ne-some rest (
          ap (λ (r : Option (List ℕ) × (TokenType × Option (List ℕ))). r.0)
            (some-injective _ _ (sym (if_true _ _ ends) ∙ e)))
      | inr on ↦
          let (r, runs, is) =
            bind-inv (read_token (read_digits start no_string).0 (read_digits start no_string).1) _
              (sym (if_false _ _ on) ∙ e) in
          some-ne-none (buildstring_append r.1.1 0).s (
            ap (λ (r : Option (List ℕ) × (TokenType × Option (List ℕ))). r.1.1)
              (some-injective _ _ is))
    ]

read_tokens-Calls :
    (fuel : ℕ) (str : List ℕ) → length str < fuel → Calls (read_tokens fuel (some str)) str
unfolding read_tokens
read_tokens-Calls zero str h = absurd (omega arith)
read_tokens-Calls (suc fuel) str h = elim (Option-cases (parse_shell_token (some str))) [
  | inl fails ↦ leaves fails (rw fails refl)
  | inr ((none, (type_, token)), e) ↦ stops e (rw e refl)
  | inr ((some rest, (type_, none)), e) ↦ absurd (parse-token str rest type_ e)
  | inr ((some rest, (type_, some block)), e) ↦
      let shorter : Shortens (length str) (some (some rest, (type_, some block))) =
        subst (Shortens (length str)) e (parse_shell_token-Shortens str) in
      goes_on {more = read_tokens fuel (some rest)} e (rw e refl)
        (read_tokens-Calls fuel rest (omega (arith, shorter)))
]

-- The calls of parse_shell_token that eval_line makes on any string come to an end: each begins
-- where the one before stopped, until one returns NULL, and then read_tokens returns the tokens of
-- those before, or until one leaves the string.
pub read_tokens-ends : (str : List ℕ) → Calls (read_tokens (length str + 1) (some str)) str
read_tokens-ends str = read_tokens-Calls (length str + 1) str (omega arith)
