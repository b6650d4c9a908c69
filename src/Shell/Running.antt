-- ===== src/Shell/Running.antt =====
-- pset4/sh61.c: how the lists of commands are executed, on top of the start of a command.
pub mod Redirects
pub mod Opening
pub mod Ends
pub mod Descriptors
pub mod Skipping
pub mod Rounds
pub mod Piping
pub mod Pipes
pub mod Lines
mod Tests
use cs61_psets.Common.{
  ℕ, zero, suc, ◌+◌, ◌/◌, ◌%◌, Bool, true, false, Option, none, some, List, [], ◌∷◌, ◌++◌, ◌==◌,
  ◌&&◌, ◌||◌, not, if◌then◌else◌, ◌>>=◌, get_elem?, put,
}
use cs61_psets.Shell.Commands.{
  Redirect, Direction, reads, writes, Command, Pipeline, Conditional, CommandList,
}
use cs61_psets.Shell.Starting.{Fds, System, Shell, is_some, close, poll, start_command}

-- WIFEXITED and WEXITSTATUS of a status that `waitpid` stores, and the branch for a signal: a status
-- with WIFEXITED has no WTERMSIG.
abbrev pub wifexited : ℕ → Bool
wifexited status = status % 128 == 0

abbrev pub wexitstatus : ℕ → ℕ
wexitstatus status = status / 256 % 256

abbrev pub wtermsig : ℕ → ℕ
wtermsig status = status % 128

-- SIGINT
abbrev pub sigint : ℕ
sigint = 2

-- The shell, with the variables `pid` and `status` of `run_list`.
pub record Running (W Object : Type 0) : Type 0 where
  pub shell : Shell W Object
  pub pid : Option ℕ
  pub status : ℕ

module _ {Object : Type 0} where
  -- The three closing `if`s behind `c->rd_count != 0`.
  unfoldable pub close_redirect : Option Redirect → Fds Object → Fds Object
  close_redirect none fds = fds
  close_redirect (some rd) fds = close rd.new_fd fds

  unfoldable pub close_redirects : Command → Fds Object → Fds Object
  unfolding close_redirect
  close_redirects c fds =
      if c.rd_count == 0
      then fds
      else close_redirect c.rd_err (close_redirect c.rd_out (close_redirect c.rd_in fds))

  unfoldable pub close_pipe : (fd : Option ℕ) (rd : Option Redirect) → Fds Object → Fds Object
  close_pipe fd none fds = close fd fds
  close_pipe fd (some rd) fds = fds

  unfoldable pub close_left_open : Command → Fds Object → Fds Object
  unfolding close_redirects close_pipe
  close_left_open c fds =
      close_pipe c.fd_out c.rd_out (close_pipe c.fd_in c.rd_in (close_redirects c fds))

module _ {W : Type 0} {Object : Type 0} where
  -- `status` and `interrupted` after a command
  unfoldable pub take_status : Command → Running W Object → Running W Object
  take_status c r =
      if wifexited c.status && not c.cd
      then record r { status = wexitstatus c.status }
      else if wifexited c.status && (wtermsig c.status == sigint)
      then record r { shell = record (r.shell) { interrupted = true } }
      else if c.cd
      then record r { status = c.status }
      else r

-- the read end of the pipe of an earlier pipeline
abbrev pub read_end : (whole : List Pipeline) → Option ℕ → Option ℕ
read_end whole none = none
read_end whole (some i) = get_elem? whole i >>= λ p. p.pipefd.0

-- the two `if`s that add 1 to `i`
unfoldable pub skips : Conditional → (status : ℕ) → Bool
skips cond status =
    ((status == 0) && not (cond.continue_if == 0)) || (not (status == 0) && (cond.continue_if == 0))

module _ {W : Type 0} {Object : Type 0} (sys : System W Object) where
  -- `pipe(pipeline->pipefd)`, which leaves pipefd as it is when it fails.
  unfoldable pub make_pipe : Shell W Object → Pipeline → Shell W Object × Pipeline
  make_pipe s p =
      if is_some p.pipe_out && not (is_some p.command.rd_out)
      then (let (world, ends) = sys.new_pipe s.world in
          elim (sys.lowest_two s.fds) [
            | none ↦ (s, record p { command = record (p.command) { fd_out = p.pipefd.1 } })
            | some (r, w) ↦ (
              record s { world = world; fds = put (put s.fds r (some ends.0)) w (some ends.1) },
              record p {
                command = record (p.command) { fd_out = some w };
                pipefd = (some r, some w);
              },
            )
          ])
      else (s, p)

  -- `c->fd_in` from the pipe before, `read` being the end of `pipeline->pipe_in`
  abbrev pub join_pipe : (read : Option ℕ) → Pipeline → Command
  join_pipe read p =
      if is_some p.pipe_in && not (is_some p.command.rd_in)
      then record (p.command) { fd_in = read }
      else p.command

  -- `waitpid(pid, &(c->status), 0)`, which stores no status when it fails
  unfoldable pub wait_for : Shell W Object → Option ℕ → Command → Shell W Object × Command
  wait_for s pid c =
      if c.wait
      then (let (world, result) = sys.waitpid s.world pid in
          (
            record s { world = world },
            elim result [ none ↦ c | some status ↦ record c { status = status } ],
          ))
      else (s, c)

  -- One round of the inner loop of `run_list`, with the pipeline as it is left.
  unfoldable pub run_pipeline :
      (self : ℕ) (read : Option ℕ)
      → Pipeline
      → Running W Object
      → Option (Running W Object × Pipeline)
  unfolding poll start_command make_pipe wait_for close_left_open take_status
  run_pipeline self read p r = do
    let piped = make_pipe r.shell p
    let c = join_pipe read piped.1
    let s = poll sys piped.0
    started ← if s.interrupted then some (s, c, r.pid) else start_command sys self c s
    let waited = wait_for started.0 started.2 started.1
    let shell = record (waited.0) { fds = close_left_open waited.1 waited.0.fds }
    let r' : Running W Object = record { shell = shell; pid = started.2; status = r.status }
    some (take_status waited.1 r', record (piped.1) { command = waited.1 })

  -- The inner loop, behind the pipelines that have run.
  unfoldable pub run_pipelines :
      (self : ℕ) (before after : List Pipeline) → Running W Object → Option (Running W Object)
  unfolding run_pipeline
  run_pipelines self before [] r = some r
  run_pipelines self before (p ∷ after) r = do
    done ← run_pipeline self (read_end (before ++ (p ∷ after)) p.pipe_in) p r
    run_pipelines self (before ++ (done.1 ∷ [])) after done.0

  -- One round of the outer loop.
  unfoldable pub run_conditional :
      (self : ℕ) → Conditional → Running W Object → Option (Running W Object)
  unfolding run_pipelines
  run_conditional self cond r = run_pipelines self [] cond.cond_argv (record r { status = 0 })

  -- The outer loop; `skip` says that `i` has been moved over the next conditional.
  unfoldable pub run_conditionals :
      (self : ℕ) (skip : Bool) → List Conditional → Running W Object → Option (Running W Object)
  unfolding run_conditional skips
  run_conditionals self skip [] r = some r
  run_conditionals self true (cond ∷ conds) r = run_conditionals self false conds r
  run_conditionals self false (cond ∷ conds) r = do
    r' ← run_conditional self cond r
    run_conditionals self (skips cond r'.status) conds r'

  unfoldable pub run_list : (self : ℕ) → CommandList → Shell W Object → Option (Shell W Object)
  unfolding run_conditionals
  run_list self list s = do
    r ← run_conditionals self false list.cargv (record { shell = s; pid = none; status = 0 })
    some r.shell

  -- What the child of a list in the background runs before it goes back to `main`.
  unfoldable pub background_child : (self : ℕ) → CommandList → Shell W Object → W → Option W
  unfolding run_list
  background_child self list s w = do
    done ← run_list self list (record s { world = w; cmd_running = true })
    some (done.world)

  -- The loop of `eval_line` over the lists. The `return` leaves `cmd_running` as it is.
  unfoldable pub run_group :
      (self : ℕ) → List CommandList → Shell W Object → Option (Shell W Object)
  unfolding poll run_list background_child
  run_group self [] s = some (record s { cmd_running = false })
  run_group self (list ∷ lists) s =
      let s' = poll sys s in
      elim s'.interrupted [
        | true ↦ some s'
        | false ↦ elim list.background [
          | true ↦
              let forked = sys.fork_shell s'.world (background_child self list s') in
              run_group self lists (record s' { world = forked.0 })
          | false ↦ run_list self list (record s' { cmd_running = true }) >>= λ done.
              run_group self lists done
        ]
      ]
