-- ===== src/Shell/Token/Parse.antt =====
-- `parse_shell_token` as a whole: the string that it leaves is shorter.
use cs61_psets.Common.{
  ℕ, suc, ◌≤◌, ◌<◌, ◌≡◌, refl, ◌∙◌, ◌⊎◌, inl, inr, arith, Bool, true, false, Bool-cases, Option,
  none, some, List, [], ◌∷◌, ◌==◌, ◌||◌, if◌then◌else◌, length, ◌>>=◌, if_true, if_false,
}
use cs61_psets.Shell.Token.{
  Buildstring, no_string, buildstring_append, isspace, isdigit, skip_spaces, read_digits,
  read_token, parse_shell_token, TokenType, token_sequence,
}
use cs61_psets.Shell.Token.Progress.{
  Below, length-read_digits, read_token-Below, read_token-Below_any,
}

-- a token that is returned comes with a pointer to less than `n` characters
abbrev pub Shortens : (n : ℕ) → Option (Option (List ℕ) × (TokenType × Option (List ℕ))) → Type 0
Shortens n none = Unit
Shortens n (some (none, token)) = Unit
Shortens n (some (some rest, token)) = length rest < n

-- what is left after the spaces
skip_cases :
    (str : List ℕ)
    → (skip_spaces str ≡ [])
      ⊎ ((c : ℕ) × (cs : List ℕ) × (skip_spaces str ≡ c ∷ cs)
          × (isspace c ≡ false)
          × (suc (length cs) ≤ length str))
unfolding skip_spaces
skip_cases [] = inl refl
skip_cases (c ∷ cs) = elim (Bool-cases (isspace c)) [
  | inl e ↦ elim (skip_cases cs) [
    | inl nothing ↦ inl (if_true _ _ e ∙ nothing)
    | inr (d, ds, found, space, bound) ↦ inr (d, ds, if_true _ _ e ∙ found, space, omega arith)
  ]
  | inr e ↦ inr (c, cs, if_false _ _ e, e, omega arith)
]

finish-Shortens :
    (n : ℕ) (r : Option (List ℕ × (TokenType × Buildstring)))
    → Below n r
    → Shortens n (r >>= (λ p. some (some p.0, (p.1.0, some (buildstring_append p.1.1 0).s))))
finish-Shortens n none h = tt
finish-Shortens n (some (rest, (type_, token))) h = h

digits_cases :
    (c : ℕ) (cs : List ℕ) (b : Buildstring)
    → (length (read_digits (c ∷ cs) b).0 ≤ length cs) ⊎ (read_digits (c ∷ cs) b ≡ (c ∷ cs, b))
unfolding read_digits
digits_cases c cs b = elim (Bool-cases (isdigit c)) [
  | inl e ↦ inl (ground (arith, e, length-read_digits cs (buildstring_append b c)))
  | inr e ↦ inr (if_false _ _ e)
]

Below-weaken :
    (m n : ℕ) (r : Option (List ℕ × (TokenType × Buildstring))) → m ≤ n → Below m r → Below n r
Below-weaken m n none h below = tt
Below-weaken m n (some (rest, token)) h below = omega arith

after_digits :
    (c : ℕ) (cs : List ℕ)
    → isspace c ≡ false
    → Below
        (suc (length cs))
        (read_token (read_digits (c ∷ cs) no_string).0 (read_digits (c ∷ cs) no_string).1)
after_digits c cs space = elim (digits_cases c cs no_string) [
  | inl short ↦
      Below-weaken (suc (length (read_digits (c ∷ cs) no_string).0)) (suc (length cs))
        (read_token (read_digits (c ∷ cs) no_string).0 (read_digits (c ∷ cs) no_string).1)
        (omega arith)
        (read_token-Below_any (read_digits (c ∷ cs) no_string).0 (read_digits (c ∷ cs) no_string).1)
  | inr none_read ↦ rw none_read (read_token-Below c cs no_string space refl)
]

if_Shortens :
    (b : Bool) (n : ℕ) (x y : Option (Option (List ℕ) × (TokenType × Option (List ℕ))))
    → Shortens n x
    → Shortens n y
    → Shortens n (if b then x else y)
if_Shortens true n x y h k = h
if_Shortens false n x y h k = k

-- If `parse_shell_token` returns a token of a string, the pointer that it returns is in the string
-- and fewer characters are left from it on than the whole string has.
pub parse_shell_token-Shortens :
    (str : List ℕ) → Shortens (length str) (parse_shell_token (some str))
unfolding parse_shell_token
parse_shell_token-Shortens str = elim (skip_cases str) [
  | inl nothing ↦ rw nothing tt
  | inr (c, cs, found, space, bound) ↦
      let r = read_token (read_digits (c ∷ cs) no_string).0 (read_digits (c ∷ cs) no_string).1 in
      rw found (
        if_Shortens ((c == 0) || (c == 35)) (length str) (some (none, (token_sequence, none)))
          (r >>= (λ p. some (some p.0, (p.1.0, some (buildstring_append p.1.1 0).s)))) tt
          (finish-Shortens (length str) r
            (Below-weaken (suc (length cs)) (length str) r bound (after_digits c cs space))))
]
