-- ===== src/Shell/Running/Skipping.antt =====
-- Which conditionals of a list `run_list` runs.
use cs61_psets.Common.{
  ℕ, ◌≡◌, ◌≢◌, refl, ◌∙◌, sym, ap, bind-ext, bind-some, inl, inr, arith, Bool, true, false, Option,
  none, some, List, [], ◌∷◌, ◌==◌, not, if◌then◌else◌, ◌>>=◌, Bool-cases,
}
use cs61_psets.Shell.Commands.{Conditional, CommandList}
use cs61_psets.Shell.Running.{Running, skips, run_conditional, run_conditionals, run_list}
use cs61_psets.Shell.Starting.{System, Shell}

-- `&&` goes on after success and `||` after failure
abbrev pub goes_on : (continue_if status : ℕ) → Bool
goes_on continue_if status = if continue_if == 0 then status == 0 else not (status == 0)

-- No two neighbouring operators are the same; the last conditional has none.
abbrev pub Alternating : List Conditional → Type 0
Alternating [] = Unit
Alternating (a ∷ []) = Unit
Alternating (a ∷ (b ∷ [])) = Unit
Alternating (a ∷ (b ∷ (c ∷ cs))) =
    ((a.continue_if == 0) ≢ (b.continue_if == 0)) × Alternating (b ∷ (c ∷ cs))

-- the code's test is the negation
skips-goes_on :
    (cond : Conditional) (status : ℕ) → skips cond status ≡ not (goes_on cond.continue_if status)
unfolding skips
skips-goes_on cond status = ground arith

-- a status that does not satisfy one operator satisfies the other
other_goes_on :
    (op op' status : ℕ)
    → ((op == 0) ≢ (op' == 0))
    → goes_on op status ≡ false
    → goes_on op' status ≡ true
other_goes_on op op' status alt e = ground (arith, alt, e)

Alternating-tail :
    (a : Conditional) (conds : List Conditional) → Alternating (a ∷ conds) → Alternating conds
Alternating-tail a [] h = tt
Alternating-tail a (b ∷ []) h = tt
Alternating-tail a (b ∷ (c ∷ cs)) h = h.1

bind_id : {A : Type 0} (m : Option A) → (m >>= λ a. some a) ≡ m
bind_id none = refl
bind_id (some a) = refl

module _ {W : Type 0} {Object : Type 0} (sys : System W Object) (self : ℕ) where
  -- The shell language: behind an operator a conditional is run if the last status allows it, and
  -- otherwise the status stays.
  unfoldable pub standard_behind :
      (continue_if : ℕ) → List Conditional → Running W Object → Option (Running W Object)
  standard_behind op [] r = some r
  standard_behind op (cond ∷ conds) r = elim (goes_on op r.status) [
    | true ↦ run_conditional sys self cond r >>= λ r'. standard_behind cond.continue_if conds r'
    | false ↦ standard_behind cond.continue_if conds r
  ]

  unfoldable pub standard_conditionals :
      List Conditional → Running W Object → Option (Running W Object)
  unfolding standard_behind
  standard_conditionals [] r = some r
  standard_conditionals (cond ∷ conds) r =
      run_conditional sys self cond r >>= λ r'. standard_behind cond.continue_if conds r'

  unfoldable pub standard : CommandList → Shell W Object → Option (Shell W Object)
  unfolding standard_conditionals
  standard list s = do
    r ← standard_conditionals list.cargv (record { shell = s; pid = none; status = 0 })
    some r.shell

  ran :
      (a : Conditional) (conds : List Conditional) (r : Running W Object)
      → goes_on a.continue_if r.status ≡ true
      → run_conditionals sys self (skips a r.status) conds r
        ≡ run_conditionals sys self false conds r
  ran a conds r e =
      ap (λ b. run_conditionals sys self b conds r) (skips-goes_on a r.status ∙ ap not e)

  skipped :
      (a : Conditional) (conds : List Conditional) (r : Running W Object)
      → goes_on a.continue_if r.status ≡ false
      → run_conditionals sys self (skips a r.status) conds r
        ≡ run_conditionals sys self true conds r
  skipped a conds r e =
      ap (λ b. run_conditionals sys self b conds r) (skips-goes_on a r.status ∙ ap not e)

  standard_runs :
      (op : ℕ) (b : Conditional) (conds : List Conditional) (r : Running W Object)
      → goes_on op r.status ≡ true
      → standard_behind op (b ∷ conds) r
        ≡ (run_conditional sys self b r >>= λ r'. standard_behind b.continue_if conds r')
  unfolding standard_behind
  standard_runs op b conds r e = λ i. elim (e i) [
    | true ↦ run_conditional sys self b r >>= λ r'. standard_behind b.continue_if conds r'
    | false ↦ standard_behind b.continue_if conds r
  ]

  standard_skips :
      (op : ℕ) (b : Conditional) (conds : List Conditional) (r : Running W Object)
      → goes_on op r.status ≡ false
      → standard_behind op (b ∷ conds) r ≡ standard_behind b.continue_if conds r
  unfolding standard_behind
  standard_skips op b conds r e = λ i. elim (e i) [
    | true ↦ run_conditional sys self b r >>= λ r'. standard_behind b.continue_if conds r'
    | false ↦ standard_behind b.continue_if conds r
  ]

  conditionals-standard :
      (a : Conditional) (conds : List Conditional) (r : Running W Object)
      → Alternating (a ∷ conds)
      → run_conditionals sys self (skips a r.status) conds r ≡ standard_behind a.continue_if conds r
  unfolding run_conditionals standard_behind
  conditionals-standard a [] r alt = refl
  conditionals-standard a (b ∷ []) r alt = elim (Bool-cases (goes_on a.continue_if r.status)) [
    | inl e ↦
        ran a (b ∷ []) r e
        ∙ bind-ext (run_conditional sys self b r) _ _ (λ r' _. conditionals-standard b [] r' tt)
        ∙ sym (standard_runs a.continue_if b [] r e)
    | inr e ↦ skipped a (b ∷ []) r e ∙ sym (standard_skips a.continue_if b [] r e)
  ]
  conditionals-standard a (b ∷ (c ∷ cs)) r alt =
      elim (Bool-cases (goes_on a.continue_if r.status)) [
        | inl e ↦
            ran a (b ∷ (c ∷ cs)) r e
            ∙ bind-ext (run_conditional sys self b r) _ _
                (λ r' _. conditionals-standard b (c ∷ cs) r' alt.1)
            ∙ sym (standard_runs a.continue_if b (c ∷ cs) r e)
        | inr e ↦
            skipped a (b ∷ (c ∷ cs)) r e
            ∙ bind-ext (run_conditional sys self c r) _ _
                (λ r' _. conditionals-standard c cs r' (Alternating-tail b (c ∷ cs) alt.1))
            ∙ sym (
                standard_runs b.continue_if c cs r
                  (other_goes_on a.continue_if b.continue_if r.status alt.0 e))
            ∙ sym (standard_skips a.continue_if b (c ∷ cs) r e)
      ]

  first_round :
      (conds : List Conditional) (r : Running W Object)
      → Alternating conds
      → run_conditionals sys self false conds r ≡ standard_conditionals conds r
  unfolding run_conditionals standard_conditionals
  first_round [] r alt = refl
  first_round (a ∷ conds) r alt =
      bind-ext (run_conditional sys self a r) _ _ λ r' _. conditionals-standard a conds r' alt

  -- On a list in which `&&` and `||` alternate, run_list runs the conditionals that the shell
  -- language says, and in its order: behind an operator that the last status does not satisfy the
  -- conditional is left out.
  pub run_list-standard :
      (list : CommandList) (s : Shell W Object)
      → Alternating list.cargv
      → run_list sys self list s ≡ standard list s
  unfolding run_list standard
  run_list-standard list s alt =
      ap (λ (o : Option (Running W Object)). o >>= λ r. some r.shell) (first_round list.cargv _ alt)

  -- Where the first of three conditionals returns with a status that neither its own operator nor
  -- that of the second lets go on, the outer loop of run_list runs the third, and in the shell
  -- language none of the two is run.
  pub run_conditionals_third :
      (a b c : Conditional) (r r' : Running W Object)
      → run_conditional sys self a r ≡ some r'
      → goes_on a.continue_if r'.status ≡ false
      → goes_on b.continue_if r'.status ≡ false
      → (run_conditionals sys self false (a ∷ b ∷ c ∷ []) r ≡ run_conditional sys self c r')
        × (standard_behind a.continue_if (b ∷ c ∷ []) r' ≡ some r')
  unfolding run_conditionals standard_behind
  run_conditionals_third a b c r r' runs no_a no_b = (
    bind-some (λ r1. run_conditionals sys self (skips a r1.status) (b ∷ (c ∷ [])) r1) runs
        ∙ skipped a (b ∷ (c ∷ [])) r' no_a
        ∙ bind_id (run_conditional sys self c r'),
    standard_skips a.continue_if b (c ∷ []) r' no_a ∙ standard_skips b.continue_if c [] r' no_b,
  )
