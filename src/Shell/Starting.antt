-- ===== src/Shell/Starting.antt =====
-- pset4/sh61.c: how a single command is started, as the shell process sees it.
-- The system is a parameter: its own state, the open files that descriptors stand for, and what its
-- calls return. `none` as a result of a function here is `exit(1)`, or a fault of a child. Process groups, the foreground
-- and messages are left out, and an `execvp` that is reached succeeds.
use cs61_psets.Common.{
  ℕ, Bool, true, false, Option, none, some, List, ◌==◌, if◌then◌else◌, ◌>>=◌, get_elem?, put,
}
use cs61_psets.Shell.Commands.{Redirect, Direction, reads, writes, Command}

-- the descriptor table of a process
abbrev pub Fds : Type 0 → Type 0
Fds Object = ℕ → Option Object

-- What `execvp` is called with.
pub record Image (Object : Type 0) : Type 0 where
  pub fds : Fds Object
  pub file : List ℕ
  pub argv : List (List ℕ)

-- `lowest` and `lowest_two` are the descriptors that `open` and `dup`, and `pipe`, give out; -1 is
-- `none`. `fork` and `fork_shell` are handed what the child does, which ends in `execvp` or is a
-- shell, and `signalled` says whether the handler of SIGINT has run since it was asked.
pub record System (W Object : Type 0) : Type 0 where
  pub lowest : Fds Object → Option ℕ
  pub lowest_two : Fds Object → Option (ℕ × ℕ)
  pub open_file : W → Option (List ℕ) → Direction → W × Option Object
  pub new_pipe : W → W × (Object × Object)
  pub fork : W → (W → Option (W × Image Object)) → W × Option ℕ
  pub fork_shell : W → (W → Option W) → W × Option ℕ
  pub waitpid : W → Option ℕ → W × Option ℕ
  pub chdir : W → Option (List ℕ) → W × Bool
  pub signalled : W → W × Bool

pub record Shell (W Object : Type 0) : Type 0 where
  pub world : W
  pub fds : Fds Object
  pub interrupted : Bool
  pub cmd_running : Bool
  pub clear_cmd : Bool

abbrev pub is_some {ℓ} : {A : Type ℓ} → Option A → Bool
is_some none = false
is_some (some a) = true

module _ {Object : Type 0} where
  abbrev pub close : Option ℕ → Fds Object → Fds Object
  close none fds = fds
  close (some fd) fds = put fds fd none

  -- A descriptor that is not in use cannot be duplicated.
  abbrev pub dup2 : (from to : Option ℕ) → Fds Object → Fds Object
  dup2 none to fds = fds
  dup2 (some from) none fds = fds
  dup2 (some from) (some to) fds = elim (fds from) [
    | none ↦ fds
    | some object ↦ put fds to (some object)
  ]

module _ {W : Type 0} {Object : Type 0} where
  -- `interrupt_handler`, at each time that a variable it sets is read
  unfoldable pub interrupt_handler : Shell W Object → Shell W Object
  interrupt_handler s =
      if s.cmd_running then record s { interrupted = true } else record s { clear_cmd = true }

  unfoldable pub poll : System W Object → Shell W Object → Shell W Object
  unfolding interrupt_handler
  poll sys s =
      let (world, arrived) = sys.signalled s.world in
      let s' : Shell W Object = record s { world = world } in
      if arrived then interrupt_handler s' else s'

-- The state of the system, the descriptors, and a redirection after it was opened.
abbrev pub Redirected : Type 0 → Type 0 → Type 0
Redirected W Object = W × Fds Object × Option Redirect

module _ {W : Type 0} {Object : Type 0} (sys : System W Object) where
  -- One of the three parts of `handle_rd`.
  unfoldable pub redirect_one :
      (mode : Direction) → W → Fds Object → Option Redirect → Option (Redirected W Object)
  redirect_one mode w fds none = some (w, fds, none)
  redirect_one mode w fds (some rd) =
      let (w', opened) = sys.open_file w rd.filename mode in
      opened >>= λ object. sys.lowest fds >>= λ new_fd. some (
        w',
        close (some new_fd) (dup2 (some new_fd) rd.redirect_fd (put fds new_fd (some object))),
        some (record rd { new_fd = some new_fd }),
      )

  unfoldable pub handle_rd : W → Fds Object → Command → Option (W × Fds Object × Command)
  unfolding redirect_one
  handle_rd w fds c = do
    a ← redirect_one reads w fds c.rd_in
    b ← redirect_one writes a.0 a.1 c.rd_out
    e ← redirect_one writes b.0 b.1 c.rd_err
    some (e.0, e.1, record c { rd_in = a.2; rd_out = b.2; rd_err = e.2 })

  -- the two `if`s that put an end of a pipe in place of a standard descriptor
  unfoldable pub take_pipe :
      (fd : Option ℕ) (rd : Option Redirect) (standard : ℕ) → Fds Object → Fds Object
  take_pipe none rd standard fds = fds
  take_pipe (some fd) (some rd) standard fds = fds
  take_pipe (some fd) none standard fds = close (some fd) (dup2 (some fd) (some standard) fds)

  -- What the child does after `fork`, up to `execvp`. A command without words has NULL for `argv`,
  -- and the child then faults at `c->argv[0]`.
  unfoldable pub child_branch : Command → Fds Object → W → Option (W × Image Object)
  unfolding handle_rd take_pipe
  child_branch c fds w = do
    r ← if c.rd_count == 0 then some (w, fds, c) else handle_rd w fds c
    let d = r.2
    file ← get_elem? d.argv 0
    some (
      r.0,
      record {
        fds = take_pipe d.fd_out d.rd_out 1 (take_pipe d.fd_in d.rd_in 0 r.1);
        file = file;
        argv = d.argv;
      },
    )

  -- `dup` of a standard descriptor
  abbrev pub save : (fd : ℕ) → Fds Object → Option ℕ × Fds Object
  save fd fds = elim (fds fd) [
    | none ↦ (none, fds)
    | some object ↦ elim (sys.lowest fds) [
      | none ↦ (none, fds)
      | some new_fd ↦ (some new_fd, put fds new_fd (some object))
    ]
  ]

  -- The branch of `start_command` for `cd`, which runs in the shell itself.
  unfoldable pub change_directory : Command → Shell W Object → Option (Shell W Object × Command)
  unfolding handle_rd
  change_directory c s =
      let (saved_stdout, fds1) = save 1 s.fds in
      let (saved_stderr, fds2) = save 2 fds1 in
      (if c.rd_count == 0 then some (s.world, fds2, c) else handle_rd s.world fds2 c) >>= λ r.
      (let (world, ok) = sys.chdir r.0 (get_elem? c.argv 1) in
        let back = close saved_stdout (dup2 saved_stdout (some 1) r.1) in
        some (
          record s { world = world; fds = close saved_stderr (dup2 saved_stderr (some 2) back) },
          record (r.2) { status = if ok then 0 else 1 },
        ))

  -- As the parent; the process that is returned is `none` for -1, and `self` is `getpid()`.
  unfoldable pub start_command :
      (self : ℕ) → Command → Shell W Object → Option (Shell W Object × Command × Option ℕ)
  unfolding change_directory child_branch
  start_command self c s =
      if c.cd
      then (change_directory c s >>= λ r. some (r.0, record (r.1) { pid = some self }, some self))
      else (let (world, pid) = sys.fork s.world (child_branch c s.fds) in
          some (record s { world = world }, record c { pid = some self }, pid))
