-- ===== src/Shell/Token/Progress.antt =====
-- Each token takes a character at least.
use cs61_psets.Common.{
  ℕ, zero, suc, ◌≤◌, ◌<◌, ◌≡◌, refl, inl, inr, arith, false, Bool-cases, Option, none, some, List,
  [], ◌∷◌, ◌==◌, ◌&&◌, if◌then◌else◌, length, ◌>>=◌,
}
use cs61_psets.Shell.Token.{
  Buildstring, buildstring_append, peek, next, isspace, isdigit, isshellspecial, skip_spaces,
  read_digits, read_redirection, read_word, read_token, TokenType, token_redirection, advance,
}

length-next : (str : List ℕ) → length (next str) ≤ length str
length-next [] = omega arith
length-next (c ∷ cs) = omega arith

length-skip_spaces : (str : List ℕ) → length (skip_spaces str) ≤ length str
unfolding skip_spaces
length-skip_spaces [] = omega arith
length-skip_spaces (c ∷ cs) = ground (arith, length-skip_spaces cs)

pub length-read_digits :
    (str : List ℕ) (b : Buildstring) → length (read_digits str b).0 ≤ length str
unfolding read_digits
length-read_digits [] b = omega arith
length-read_digits (c ∷ cs) b = ground (arith, length-read_digits cs (buildstring_append b c))

length-read_word :
    (fuel : ℕ) (str : List ℕ) (quoted : ℕ) (b : Buildstring)
    → length (read_word fuel str quoted b).0 ≤ length str
unfolding read_word
length-read_word zero str quoted b = omega arith
length-read_word (suc fuel) [] quoted b = omega arith
length-read_word (suc fuel) (c ∷ cs) quoted b = ground (
  arith,
  length-read_word fuel cs c b,
  length-read_word fuel cs 0 b,
  length-read_word fuel (next cs) quoted (buildstring_append b (peek cs)),
  length-read_word fuel cs quoted (buildstring_append b c),
  length-next cs,
)

-- a word that does not start with a space or a special character
first_of_word :
    (c : ℕ) (cs : List ℕ) (b : Buildstring)
    → isspace c ≡ false
    → isshellspecial c ≡ false
    → length (read_word (suc (length cs)) (c ∷ cs) 0 b).0 < suc (length cs)
unfolding read_word
first_of_word c cs b space special = ground (
  arith,
  space,
  special,
  length-read_word (length cs) cs c b,
  length-read_word (length cs) cs 0 b,
  length-read_word (length cs) (next cs) 0 (buildstring_append b (peek cs)),
  length-read_word (length cs) cs 0 (buildstring_append b c),
  length-next cs,
)

-- where a pointer stands that was moved, if it is in the string
abbrev pub Below {ℓ} : {A : Type ℓ} → (n : ℕ) → Option (List ℕ × A) → Type 0
Below n none = Unit
Below n (some (rest, token)) = length rest < n

advance_by :
    (last : List ℕ) (token : Buildstring) (n : ℕ)
    → length last ≤ n
    → 0 < n
    → Below n (advance last >>= (λ rest. some (rest, token)))
advance_by [] token n h pos = tt
advance_by (c ∷ cs) token n h pos = omega arith

read_redirection-Below :
    (c : ℕ) (cs : List ℕ) (b : Buildstring) → Below (suc (length cs)) (read_redirection (c ∷ cs) b)
unfolding read_redirection
read_redirection-Below c cs b =
    let (after, number) =
      read_digits (next cs) (buildstring_append (buildstring_append b c) (peek cs)) in
    let (last, token) =
      if peek cs == 62
      then (cs, buildstring_append (buildstring_append b c) 62)
      else if (peek cs == 38) && isdigit (peek (next cs))
      then (after, number)
      else (c ∷ cs, buildstring_append b c) in
    let bound : length last ≤ suc (length cs) = ground (
      arith,
      length-read_digits (next cs) (buildstring_append (buildstring_append b c) (peek cs)),
      length-next cs,
    ) in
    advance_by last token (suc (length cs)) bound (omega arith)

Below-mono : (n : ℕ) (r : Option (List ℕ × Buildstring)) → Below n r → Below (suc n) r
Below-mono n none h = tt
Below-mono n (some (rest, token)) h = omega arith

redirection-Below :
    (n : ℕ) (r : Option (List ℕ × Buildstring))
    → Below n r
    → Below {A = TokenType × Buildstring} n (r >>= (λ p. some (p.0, (token_redirection, p.1))))
redirection-Below n none h = tt
redirection-Below n (some (rest, token)) h = h

-- a token takes a character from a string that starts with no space, if no digits come before it
pub read_token-Below :
    (c : ℕ) (cs : List ℕ) (b : Buildstring)
    → isspace c ≡ false
    → b.length_ ≡ 0
    → Below (suc (length cs)) (read_token (c ∷ cs) b)
unfolding read_token
read_token-Below c cs b space empty =
    let redirected =
      redirection-Below (suc (length cs)) (read_redirection (c ∷ cs) b)
        (read_redirection-Below c cs b) in
    elim (Bool-cases (isshellspecial c)) [
      | inl special ↦ ground (arith, redirected, special, empty, length-next cs)
      | inr special ↦
          ground
            (arith, redirected, special, empty, length-next cs, first_of_word c cs b space special)
    ]

-- and none back after digits
pub read_token-Below_any :
    (str : List ℕ) (b : Buildstring) → Below (suc (length str)) (read_token str b)
unfolding read_token
read_token-Below_any [] b = ground arith
read_token-Below_any (c ∷ cs) b =
    let redirected = redirection-Below (suc (suc (length cs))) (read_redirection (c ∷ cs) b) (
      Below-mono (suc (length cs)) (read_redirection (c ∷ cs) b) (read_redirection-Below c cs b)) in
    ground (arith, redirected, length-next cs, length-read_word (suc (length cs)) (c ∷ cs) 0 b)

-- With as much fuel as the string has characters the loop of a normal token has run to its end:
-- more fuel gives the same.
pub read_word-fuel :
    (m n : ℕ) (str : List ℕ) (quoted : ℕ) (b : Buildstring)
    → length str ≤ m
    → length str ≤ n
    → read_word m str quoted b ≡ read_word n str quoted b
unfolding read_word
read_word-fuel zero zero str quoted b h k = refl
read_word-fuel zero (suc n) [] quoted b h k = refl
read_word-fuel zero (suc n) (c ∷ cs) quoted b h k = absurd (omega arith)
read_word-fuel (suc m) zero [] quoted b h k = refl
read_word-fuel (suc m) zero (c ∷ cs) quoted b h k = absurd (omega arith)
read_word-fuel (suc m) (suc n) [] quoted b h k = refl
read_word-fuel (suc m) (suc n) (c ∷ cs) quoted b h k =
    rw
      (
        read_word-fuel m n cs c b (omega arith) (omega arith),
        read_word-fuel m n cs 0 b (omega arith) (omega arith),
        read_word-fuel m n (next cs) quoted (buildstring_append b (peek cs))
            (omega (arith, length-next cs)) (omega (arith, length-next cs)),
        read_word-fuel m n cs quoted (buildstring_append b c) (omega arith) (omega arith),
      )
      refl
