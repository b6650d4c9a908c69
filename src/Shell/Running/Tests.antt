-- ===== src/Shell/Running/Tests.antt =====
-- The theorems on the execution of command lines, on a system with sixteen descriptors in which
-- `waitpid` hands out a list of statuses.
use cs61_psets.Common.{
  ℕ, zero, suc, ◌+◌, ◌≤◌, ◌<◌, ◌≡◌, ◌≢◌, refl, ◌∙◌, sym, ap, inl, inr, arith, true, false, Option,
  none, some, some-injective, List, [], ◌∷◌, ltb, ◌==◌, if◌then◌else◌, ◌>>=◌, Option-cases,
  bind-inv,
}
use mathlib.Core.Option.{none-ne-some, some-ne-none}
use cs61_psets.Shell.Commands.{Command, Conditional, CommandList, command_alloc, pipeline_alloc}
use cs61_psets.Shell.Lists.{fresh, whole_group, build}
use cs61_psets.Shell.Lists.Grammar.{
  Line, word, one, pipe_to, only, final, print_line, target, input,
}
use cs61_psets.Shell.Running.{
  Running, run_conditional, run_conditionals, run_list, run_group, run_pipelines, run_pipeline,
  make_pipe, wait_for, close_left_open, close_redirects, close_pipe, take_status,
}
use cs61_psets.Shell.Starting.{
  Fds, Image, System, Shell, is_some, child_branch, poll, start_command,
}
use cs61_psets.Shell.Running.Skipping.{
  standard, standard_behind, run_list-standard, run_conditionals_third,
}
use cs61_psets.Shell.Running.Redirects.{Fresh}
use cs61_psets.Shell.Running.Opening.{Finds, Free}
use cs61_psets.Shell.Running.Descriptors.{Wired, child_branch-Wired}
use cs61_psets.Shell.Running.Piping.{Plain, FreshTwo}
use cs61_psets.Shell.Running.Lines.{eval_line-closes}

find_free : (left i : ℕ) → Fds ℕ → Option ℕ
find_free zero i fds = none
find_free (suc left) i fds = elim (fds i) [
  | none ↦ some i
  | some object ↦ find_free left (i + 1) fds
]

taken :
    (left i : ℕ) (fds : Fds ℕ) {object : ℕ}
    → fds i ≡ some object
    → find_free (suc left) i fds ≡ find_free left (i + 1) fds
unfolding find_free
taken left i fds e = λ k. elim (e k) [ none ↦ some i | some object ↦ find_free left (i + 1) fds ]

at_once : (left i : ℕ) (fds : Fds ℕ) → fds i ≡ none → find_free (suc left) i fds ≡ some i
unfolding find_free
at_once left i fds e = λ k. elim (e k) [ none ↦ some i | some object ↦ find_free left (i + 1) fds ]

find_free-unused :
    (left i : ℕ) (fds : Fds ℕ) (n : ℕ) → find_free left i fds ≡ some n → (fds n ≡ none) × (i ≤ n)
find_free-unused zero i fds n e = absurd (none-ne-some n (unfold find_free in e))
find_free-unused (suc left) i fds n e = elim (Option-cases (fds i)) [
  | inl free ↦
      let is = some-injective i n (sym (at_once left i fds free) ∙ e) in
      (ap fds (sym is) ∙ free, omega (arith, is))
  | inr (object, used) ↦
      let (free, lo) = find_free-unused left (i + 1) fds n (sym (taken left i fds used) ∙ e) in
      (free, omega (arith, lo))
]

later : (i n : ℕ) → i ≤ n → i ≢ n → i + 1 ≤ n
later i n lo ne = ground (arith, lo, ne)

find_free-finds :
    (left i : ℕ) (fds : Fds ℕ) (n : ℕ)
    → i ≤ n
    → n < i + left
    → fds n ≡ none
    → is_some (find_free left i fds) ≡ true
find_free-finds zero i fds n lo hi e = absurd (omega (arith, lo, hi))
find_free-finds (suc left) i fds n lo hi e = elim (Option-cases (fds i)) [
  | inl free ↦ ap is_some (at_once left i fds free)
  | inr (object, used) ↦
      ap is_some (taken left i fds used)
      ∙ find_free-finds left (i + 1) fds n
          (later i n lo (λ is. some-ne-none object (sym used ∙ ap fds is ∙ e))) (omega (arith, hi))
          e
]

two_free : Fds ℕ → Option (ℕ × ℕ)
unfolding find_free
two_free fds = do r ← find_free 16 0 fds; w ← find_free 16 (r + 1) fds; some (r, w)

abbrev next_status : List ℕ → List ℕ × Option ℕ
next_status [] = ([], none)
next_status (status ∷ rest) = (rest, some status)

system : System (List ℕ) ℕ
unfolding two_free find_free
system = record {
  lowest = find_free 16 0;
  lowest_two = two_free;
  open_file = λ w filename mode. (w, some 50);
  new_pipe = λ w. (w, (60, 61));
  fork = λ w child. (w, some 7);
  fork_shell = λ w child. (w, some 8);
  waitpid = λ w pid. next_status w;
  chdir = λ w path. (w, true);
  signalled = λ w. (w, false);
}

system-Fresh : Fresh system
unfolding system
system-Fresh fds n e = (find_free-unused 16 0 fds n e).0

system-Finds : Finds system 16
unfolding system
system-Finds fds n below e = find_free-finds 16 0 fds n (omega arith) (omega (arith, below)) e

two_apart :
    (fds : Fds ℕ) (r w a b : ℕ)
    → a ≡ r
    → b ≡ w
    → fds a ≡ none
    → (fds b ≡ none) × (a + 1 ≤ b)
    → (fds r ≡ none) × (fds w ≡ none) × (r ≢ w)
two_apart fds r w a b ar bw free (free', lo) =
    (ap fds (sym ar) ∙ free, ap fds (sym bw) ∙ free', λ e. absurd (omega (arith, ar, bw, lo, e)))

system-FreshTwo : FreshTwo system
unfolding system two_free
system-FreshTwo fds r w e =
    let (a, a_runs, e1) = bind-inv (find_free 16 0 fds) _ e in
    let (b, b_runs, e2) = bind-inv (find_free 16 (a + 1) fds) _ e1 in
    let is = some-injective (a, b) (r, w) e2 in
    two_apart fds r w a b (ap (λ (p : ℕ × ℕ). p.0) is) (ap (λ (p : ℕ × ℕ). p.1) is)
      (find_free-unused 16 0 fds a a_runs).0 (find_free-unused 16 (a + 1) fds b b_runs)

-- 0, 1 and 2 are a terminal, and 5 is an end of a pipe
abbrev terminal : Fds ℕ
terminal fd = if ltb fd 3 then some 40 else if fd == 5 then some 61 else none

abbrev shell : List ℕ → Shell (List ℕ) ℕ
shell statuses = record {
  world = statuses;
  fds = terminal;
  interrupted = false;
  cmd_running = true;
  clear_cmd = false;
}

abbrev command_a : Command
command_a = record command_alloc { argv = (97 ∷ []) ∷ [] }

abbrev lone : (continue_if : ℕ) → Conditional
lone continue_if = record {
  cond_argv = record pipeline_alloc { command = command_a } ∷ [];
  continue_if = continue_if;
}

-- `a && a || a`, of which the first fails
abbrev and_or : CommandList
and_or = record { cargv = lone 0 ∷ lone 1 ∷ lone 0 ∷ []; background = false }

differ : (0 == 0) ≢ (1 == 0)
differ = ground arith

run_list-standard_example :
    run_list system 1 and_or (shell (256 ∷ 0 ∷ []))
    ≡ standard system 1 and_or (shell (256 ∷ 0 ∷ []))
run_list-standard_example = run_list-standard system 1 and_or (shell (256 ∷ 0 ∷ [])) (differ, tt)

abbrev started : Running (List ℕ) ℕ
started = record { shell = shell (256 ∷ 0 ∷ []); pid = none; status = 0 }

abbrev failed : Running (List ℕ) ℕ
failed = record { shell = shell (0 ∷ []); pid = some 7; status = 1 }

first_fails : run_conditional system 1 (lone 0) started ≡ some failed
unfolding system run_conditional run_pipelines run_pipeline poll start_command make_pipe wait_for
    close_left_open close_redirects close_pipe take_status
first_fails = refl

-- `a && a && a`, of which the first fails
run_conditionals_third_example :
    (run_conditionals system 1 false (lone 0 ∷ lone 0 ∷ lone 0 ∷ []) started
      ≡ run_conditional system 1 (lone 0) failed)
    × (standard_behind system 1 0 (lone 0 ∷ lone 0 ∷ []) failed ≡ some failed)
run_conditionals_third_example =
    run_conditionals_third system 1 (lone 0) (lone 0) (lone 0) started failed first_fails refl refl

-- `a < f | ...`
abbrev reader : Command
reader = record command_a { rd_count = 1; rd_in = some (target input (102 ∷ [])); fd_out = some 5 }

free : Free system 16 terminal
free = record { at = 3; below = omega arith; high = omega arith; unused = refl }

child_branch-Wired_example :
    (r : List ℕ × Image ℕ) × (child_branch system reader terminal [] ≡ some r)
    × Wired system reader [] terminal r.1
unfolding system
child_branch-Wired_example =
    child_branch-Wired system 16 system-Fresh system-Finds reader [] terminal free
      (refl, refl, refl) (refl, tt, tt) (λ e. absurd (omega (arith, e)))
      (tt, omega arith, λ f e h. none-ne-some f h)
      (
        (λ f e. absurd (none-ne-some f e)),
        λ f e. ap (λ (n : ℕ). is_some (terminal n)) (sym (some-injective 5 f e)),
      )
      (refl, tt, tt) (97 ∷ []) refl

-- `a | a`
abbrev piped : Conditional
piped = record {
  cond_argv =
      record pipeline_alloc { command = command_a; pipe_out = some 1 }
      ∷ record pipeline_alloc { command = command_a; pipe_in = some 0 }
      ∷ [];
  continue_if = 0;
}

plain :
    (pipe_in pipe_out : Option ℕ)
    → Plain (record pipeline_alloc { command = command_a; pipe_in = pipe_in; pipe_out = pipe_out })
plain pipe_in pipe_out = record {
  no_cd = refl;
  no_count = refl;
  no_in = refl;
  no_out = refl;
  fd_in = refl;
  fd_out = refl;
  pipefd = refl;
}

-- the line `a | b`
abbrev a_to_b : Line
a_to_b =
    final
      (only (
        pipe_to (record { first = word (97 ∷ []); others = [] })
          (one (record { first = word (98 ∷ []); others = [] }))))
      none

eval_line-closes_example :
    (s' : Shell (List ℕ) ℕ) × (run_group system 1
        (whole_group (build (print_line a_to_b) fresh))
        (shell (0 ∷ []))
      ≡ some s')
    × ((d : ℕ) → s'.fds d ≡ terminal d)
eval_line-closes_example =
    eval_line-closes system system-FreshTwo 1 a_to_b (shell (0 ∷ [])) ((refl, tt), (refl, tt))
