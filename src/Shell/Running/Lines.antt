-- ===== src/Shell/Running/Lines.antt =====
-- `eval_line` as a whole, on lines of the grammar without redirections and without cd.
use cs61_psets.Common.{
  ℕ, suc, ◌+◌, ◌≡◌, refl, ◌∙◌, sym, ap, inl, inr, arith, Bool, true, false, Option, none, some,
  List, [], ◌∷◌, ◌>>=◌, Bool-cases, bind-some,
}
use mathlib.Core.Path.{subst}
use cs61_psets.Shell.Commands.{Conditional, CommandList}
use cs61_psets.Shell.Lists.{fresh, whole_group, build, same_string, cd_word}
use cs61_psets.Shell.Lists.Grammar.{
  Item, word, redirect, Simple, Chain, one, pipe_to, AndOr, only, link, Line, final, then_,
  print_line, count_redirects, has_cd, last_in, last_out, command_of, pipes_of, conds_of, lists_of,
}
use cs61_psets.Shell.Lists.Reading.{build-print_line}
use cs61_psets.Shell.Running.{
  Running, skips, run_conditionals, run_list, background_child, run_group,
}
use cs61_psets.Shell.Starting.{Fds, System, Shell, poll}
use cs61_psets.Shell.Running.Rounds.{poll-fds}
use cs61_psets.Shell.Running.Piping.{Plain, FreshTwo}
use cs61_psets.Shell.Running.Pipes.{behind, Linked, run_conditional-closes}

-- only words, of which none is `cd`
abbrev pub Words : List Item → Type 0
Words [] = Unit
Words (word w ∷ is) = (same_string w cd_word ≡ false) × Words is
Words (redirect ch filename ∷ is) = ⊥

abbrev pub PlainChain : Chain → Type 0
PlainChain (one s) = Words (s.first ∷ s.others)
PlainChain (pipe_to s ch) = Words (s.first ∷ s.others) × PlainChain ch

abbrev pub PlainAndOr : AndOr → Type 0
PlainAndOr (only ch) = PlainChain ch
PlainAndOr (link ch either rest) = PlainChain ch × PlainAndOr rest

abbrev pub PlainLine : Line → Type 0
PlainLine (final l background) = PlainAndOr l
PlainLine (then_ l background rest) = PlainAndOr l × PlainLine rest

record OnlyWords (is : List Item) : Type 0 where
  no_count : count_redirects is ≡ 0
  no_cd : has_cd is ≡ false
  no_in : last_in is none ≡ none
  no_out : last_out is none ≡ none

Words-OnlyWords : (is : List Item) → Words is → OnlyWords is
Words-OnlyWords [] h = record { no_count = refl; no_cd = refl; no_in = refl; no_out = refl }
Words-OnlyWords (word w ∷ is) h =
    let ih = Words-OnlyWords is h.1 in
    record { no_count = ih.no_count; no_cd = rw h.0 ih.no_cd; no_in = ih.no_in; no_out = ih.no_out }
Words-OnlyWords (redirect ch filename ∷ is) h = absurd h

simple-Plain :
    (s : Simple) (pipe_in pipe_out : Option ℕ)
    → Words (s.first ∷ s.others)
    → Plain (record {
      command = command_of s;
      pipe_in = pipe_in;
      pipe_out = pipe_out;
      pipefd = (none, none);
    })
simple-Plain s pipe_in pipe_out h =
    let o = Words-OnlyWords (s.first ∷ s.others) h in
    record {
      no_cd = o.no_cd;
      no_count = omega (arith, o.no_count);
      no_in = o.no_in;
      no_out = o.no_out;
      fd_in = refl;
      fd_out = refl;
      pipefd = refl;
    }

plus_one : (i : ℕ) → i + 1 ≡ suc i
plus_one i = omega arith

pipes_of-Linked : (ch : Chain) (i : ℕ) → PlainChain ch → Linked i (pipes_of ch i (behind i))
pipes_of-Linked (one s) i h = (simple-Plain s (behind i) none h, refl, refl)
pipes_of-Linked (pipe_to s (one s')) i (h, h') = (
  simple-Plain s (behind i) (some (i + 1)) h,
  refl,
  ap some (plus_one i),
  pipes_of-Linked (one s') (suc i) h',
)
pipes_of-Linked (pipe_to s (pipe_to s' ch)) i (h, h') = (
  simple-Plain s (behind i) (some (i + 1)) h,
  refl,
  ap some (plus_one i),
  subst (λ n. Linked (suc i) (pipes_of (pipe_to s' ch) n (some i))) (sym (plus_one i))
      (pipes_of-Linked (pipe_to s' ch) (suc i) h'),
)

abbrev AllLinked : List Conditional → Type 0
AllLinked [] = Unit
AllLinked (c ∷ cs) = Linked 0 c.cond_argv × AllLinked cs

conds_of-AllLinked : (l : AndOr) → PlainAndOr l → AllLinked (conds_of l)
conds_of-AllLinked (only ch) h = (pipes_of-Linked ch 0 h, tt)
conds_of-AllLinked (link ch either rest) h = (pipes_of-Linked ch 0 h.0, conds_of-AllLinked rest h.1)

abbrev ListsLinked : List CommandList → Type 0
ListsLinked [] = Unit
ListsLinked (l ∷ ls) = AllLinked l.cargv × ListsLinked ls

lists_of-ListsLinked : (l : Line) → PlainLine l → ListsLinked (lists_of l)
lists_of-ListsLinked (final l none) h = (conds_of-AllLinked l h, tt)
lists_of-ListsLinked (final l (some background)) h = (conds_of-AllLinked l h, tt)
lists_of-ListsLinked (then_ l background rest) h =
    (conds_of-AllLinked l h.0, lists_of-ListsLinked rest h.1)

module _ {W : Type 0} {Object : Type 0} (sys : System W Object) (fresh_two : FreshTwo sys)
    (self : ℕ) where
  abbrev pub SameFds : (s s' : Shell W Object) → Type 0
  SameFds s s' = (d : ℕ) → s'.fds d ≡ s.fds d

  conditionals-SameFds :
      (skip : Bool) (cs : List Conditional) (r : Running W Object)
      → AllLinked cs
      → (r' : Running W Object) × (run_conditionals sys self skip cs r ≡ some r')
        × SameFds r.shell r'.shell
  unfolding run_conditionals
  conditionals-SameFds skip [] r h = (r, refl, λ d. refl)
  conditionals-SameFds true (c ∷ cs) r h = conditionals-SameFds false cs r h.1
  conditionals-SameFds false (c ∷ cs) r h =
      let (r1, runs, same) = run_conditional-closes sys fresh_two self c r h.0 in
      let (r2, runs', same') = conditionals-SameFds (skips c r1.status) cs r1 h.1 in
      (
        r2,
        bind-some (λ r'. run_conditionals sys self (skips c r'.status) cs r') runs ∙ runs',
        λ d. same' d ∙ same d,
      )

  list-SameFds :
      (l : CommandList) (s : Shell W Object)
      → AllLinked l.cargv
      → (s' : Shell W Object) × (run_list sys self l s ≡ some s') × SameFds s s'
  unfolding run_list
  list-SameFds l s h =
      let (r, runs, same) =
        conditionals-SameFds false l.cargv (record { shell = s; pid = none; status = 0 }) h in
      (r.shell, bind-some (λ (r : Running W Object). some r.shell) runs, same)

  -- the two branches of `run_group` behind the test of `interrupted`
  abbrev in_background : CommandList → List CommandList → Shell W Object → Option (Shell W Object)
  in_background l ls s =
      run_group sys self ls
        (record s { world = (sys.fork_shell s.world (background_child sys self l s)).0 })

  abbrev in_foreground : CommandList → List CommandList → Shell W Object → Option (Shell W Object)
  in_foreground l ls s =
      run_list sys self l (record s { cmd_running = true }) >>= λ done. run_group sys self ls done

  abbrev by_background :
      Bool → CommandList → List CommandList → Shell W Object → Option (Shell W Object)
  by_background b l ls s = elim b [ true ↦ in_background l ls s | false ↦ in_foreground l ls s ]

  stopped :
      (l : CommandList) (ls : List CommandList) (s : Shell W Object)
      → (poll sys s).interrupted ≡ true
      → run_group sys self (l ∷ ls) s ≡ some (poll sys s)
  unfolding run_group
  stopped l ls s e = λ i. elim (e i) [
    | true ↦ some (poll sys s)
    | false ↦ by_background l.background l ls (poll sys s)
  ]

  goes :
      (l : CommandList) (ls : List CommandList) (s : Shell W Object) (b : Bool)
      → (poll sys s).interrupted ≡ false
      → l.background ≡ b
      → run_group sys self (l ∷ ls) s ≡ by_background b l ls (poll sys s)
  unfolding run_group
  goes l ls s b e f =
      λ i. elim (e i) [ true ↦ some (poll sys s) | false ↦ by_background (f i) l ls (poll sys s) ]

  group-SameFds :
      (ls : List CommandList) (s : Shell W Object)
      → ListsLinked ls
      → (s' : Shell W Object) × (run_group sys self ls s ≡ some s') × SameFds s s'
  unfolding run_group
  group-SameFds [] s h = (record s { cmd_running = false }, refl, λ d. refl)
  group-SameFds (l ∷ ls) s h =
      let polled : SameFds s (poll sys s) = λ d. ap (λ (f : Fds Object). f d) (poll-fds sys s) in
      elim (Bool-cases (poll sys s).interrupted) [
        | inl e ↦ (poll sys s, stopped l ls s e, polled)
        | inr e ↦ elim (Bool-cases l.background) [
          | inl f ↦
              let (s2, runs, same) =
                group-SameFds ls
                  (record (poll sys s) {
                    world =
                        (sys.fork_shell (poll sys s).world
                          (background_child sys self l (poll sys s))).0;
                  })
                  h.1 in
              (s2, goes l ls s true e f ∙ runs, λ d. same d ∙ polled d)
          | inr f ↦
              let (s1, runs, same) =
                list-SameFds l (record (poll sys s) { cmd_running = true }) h.0 in
              let (s2, runs', same') = group-SameFds ls s1 h.1 in
              (
                s2,
                goes l ls s false e f ∙ bind-some (λ done. run_group sys self ls done) runs ∙ runs',
                λ d. same' d ∙ same d ∙ polled d,
              )
        ]
      ]

  -- On the tokens of every line of the grammar without redirections and without the word cd, where
  -- pipe gives out two descriptors that are not in use or fails, what eval_line builds it also runs
  -- to the end, or to an interrupt, and then the shell has the descriptors that it had before.
  pub eval_line-closes :
      (l : Line) (s : Shell W Object)
      → PlainLine l
      → (s' : Shell W Object) × (run_group sys self (whole_group (build (print_line l) fresh)) s
          ≡ some s')
        × SameFds s s'
  eval_line-closes l s h =
      let (s', runs, same) = group-SameFds (lists_of l) s (lists_of-ListsLinked l h) in
      (s', ap (λ ls. run_group sys self ls s) (build-print_line l) ∙ runs, same)
