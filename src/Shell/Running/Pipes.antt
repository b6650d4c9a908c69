-- ===== src/Shell/Running/Pipes.antt =====
-- The ends of the pipes that `run_list` opens are closed again in the shell.
use cs61_psets.Common.{
  ℕ, zero, suc, ◌≡◌, refl, ◌∙◌, sym, ap, Option, none, some, List, [], ◌∷◌, ◌++◌, get_elem?, length,
  bind-some,
}
use mathlib.Core.Path.{subst}
use mathlib.Core.Option.{none-ne-some}
use cs61_psets.Shell.Commands.{Pipeline, Conditional}
use cs61_psets.Shell.Running.{Running, read_end, run_pipelines, run_conditional}
use cs61_psets.Shell.Starting.{Fds, System}
use cs61_psets.Shell.Running.Piping.{Plain, UpTo, FreshTwo, last_round, inner_round}

-- The pipelines from index `k` of a conditional on, each with a pipe from the one before it and to
-- the next, as `eval_line` links them.
abbrev pub behind : ℕ → Option ℕ
behind zero = none
behind (suc k) = some k

abbrev pub Linked : ℕ → List Pipeline → Type 0
Linked k [] = Unit
Linked k (p ∷ []) = Plain p × (p.pipe_in ≡ behind k) × (p.pipe_out ≡ none)
Linked k (p ∷ (q ∷ ps)) =
    Plain p × (p.pipe_in ≡ behind k) × (p.pipe_out ≡ some (suc k)) × Linked (suc k) (q ∷ ps)

get_elem?-middle :
    {A : Type 0} (before after : List A) (a : A)
    → get_elem? ((before ++ (a ∷ [])) ++ after) (length before) ≡ some a
get_elem?-middle [] after a = refl
get_elem?-middle (b ∷ before) after a = get_elem?-middle before after a

read_end-behind :
    (before after : List Pipeline) (q : Pipeline) (pipe_in : Option ℕ)
    → pipe_in ≡ some (length before)
    → read_end ((before ++ (q ∷ [])) ++ after) pipe_in ≡ q.pipefd.0
read_end-behind before after q pipe_in e =
    ap (read_end ((before ++ (q ∷ [])) ++ after)) e
    ∙ bind-some (λ (p : Pipeline). p.pipefd.0) (get_elem?-middle before after q)

length-snoc :
    {A : Type 0} (before : List A) (a : A) → length (before ++ (a ∷ [])) ≡ suc (length before)
length-snoc [] a = refl
length-snoc (b ∷ before) a = ap suc (length-snoc before a)

module _ {W : Type 0} {Object : Type 0} (sys : System W Object) where
  some_in :
      (p : Pipeline) (k : ℕ) (read : Option ℕ) → p.pipe_in ≡ some k → p.pipe_in ≡ none → read ≡ none
  some_in p k read e f = absurd (none-ne-some k (sym f ∙ e))

  links :
      FreshTwo sys
      → (self : ℕ) (before : List Pipeline) (q p : Pipeline) (ps : List Pipeline)
        (r : Running W Object) (base : Fds Object)
      → Linked (suc (length before)) (p ∷ ps)
      → UpTo sys (q.pipefd.0) base r.shell.fds
      → (r' : Running W Object) × (run_pipelines sys self (before ++ (q ∷ [])) (p ∷ ps) r ≡ some r')
        × UpTo sys none base r'.shell.fds
  unfolding run_pipelines
  links fresh self before q p [] r base linked up =
      let read = read_end ((before ++ (q ∷ [])) ++ (p ∷ [])) p.pipe_in in
      let is = read_end-behind before (p ∷ []) q p.pipe_in linked.1 in
      let (out, runs, ok) =
        last_round sys self read p r base linked.0 linked.2 (some_in p _ read linked.1)
          (subst (λ (x : Option ℕ). UpTo sys x base r.shell.fds) (sym is) up) in
      (out.0, bind-some _ runs, ok)
  links fresh self before q p (p' ∷ ps) r base linked up =
      let whole = (before ++ (q ∷ [])) ++ (p ∷ (p' ∷ ps)) in
      let read = read_end whole p.pipe_in in
      let is = read_end-behind before (p ∷ (p' ∷ ps)) q p.pipe_in linked.1 in
      let (out, runs, ok) =
        inner_round sys fresh self read p r base linked.0 linked.2 (some_in p _ read linked.1)
          (subst (λ (x : Option ℕ). UpTo sys x base r.shell.fds) (sym is) up) in
      let (r', runs', ok') =
        links fresh self (before ++ (q ∷ [])) out.1 p' ps out.0 base
          (subst (λ n. Linked (suc n) (p' ∷ ps)) (sym (length-snoc before q)) linked.3) ok in
      (r', bind-some _ runs ∙ runs', ok')

  no_read :
      (p : Pipeline) (whole : List Pipeline) → p.pipe_in ≡ none → read_end whole p.pipe_in ≡ none
  no_read p whole e = ap (read_end whole) e

  from_first :
      FreshTwo sys
      → (self : ℕ) (ps : List Pipeline) (r : Running W Object) → Linked 0 ps
      → (r' : Running W Object) × (run_pipelines sys self [] ps r ≡ some r')
        × UpTo sys none r.shell.fds r'.shell.fds
  unfolding run_pipelines
  from_first fresh self [] r linked = (r, refl, λ d. refl)
  from_first fresh self (p ∷ []) r linked =
      let read = read_end (p ∷ []) p.pipe_in in
      let is = no_read p (p ∷ []) linked.1 in
      let (out, runs, ok) =
        last_round sys self read p r r.shell.fds linked.0 linked.2 (λ _. is)
          (subst (λ (x : Option ℕ). UpTo sys x r.shell.fds r.shell.fds) (sym is) (λ d. refl)) in
      (out.0, bind-some _ runs, ok)
  from_first fresh self (p ∷ (p' ∷ ps)) r linked =
      let whole = p ∷ (p' ∷ ps) in
      let read = read_end whole p.pipe_in in
      let is = no_read p whole linked.1 in
      let (out, runs, ok) =
        inner_round sys fresh self read p r r.shell.fds linked.0 linked.2 (λ _. is)
          (subst (λ (x : Option ℕ). UpTo sys x r.shell.fds r.shell.fds) (sym is) (λ d. refl)) in
      let (r', runs', ok') = links fresh self [] out.1 p' ps out.0 r.shell.fds linked.3 ok in
      (r', bind-some _ runs ∙ runs', ok')

  -- On a conditional of linked pipelines, with no redirections and no cd, where pipe gives out two
  -- descriptors that are not in use or fails, run_list gets through the conditional, and afterwards
  -- the shell has the descriptors that it had before.
  pub run_conditional-closes :
      FreshTwo sys
      → (self : ℕ) (cond : Conditional) (r : Running W Object) → Linked 0 cond.cond_argv
      → (r' : Running W Object) × (run_conditional sys self cond r ≡ some r')
        × ((d : ℕ) → r'.shell.fds d ≡ r.shell.fds d)
  unfolding run_conditional
  run_conditional-closes fresh self cond r linked =
      from_first fresh self cond.cond_argv (record r { status = 0 }) linked
