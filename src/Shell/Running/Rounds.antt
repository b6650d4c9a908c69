-- ===== src/Shell/Running/Rounds.antt =====
-- One pipeline of `run_list`: what its round closes in the shell.
use cs61_psets.Common.{
  ℕ, ◌≡◌, refl, ◌∙◌, ap, inl, inr, arith, false, Option, none, some, ◌==◌, if◌then◌else◌, if_true,
  if_false, Bool-cases, bind-some,
}
use mathlib.Core.Path.{subst}
use cs61_psets.Shell.Commands.{Redirect, Command, Pipeline}
use cs61_psets.Shell.Running.{
  Running, make_pipe, join_pipe, wait_for, close_left_open, close_redirects, close_pipe,
  take_status, run_pipeline,
}
use cs61_psets.Shell.Starting.{Fds, System, Shell, close, poll, start_command}

module _ {W : Type 0} {Object : Type 0} (sys : System W Object) where
  -- the shell has the same descriptors, and the command those of its pipes
  record Kept (s s' : Shell W Object) (c c' : Command) : Type 0 where
    fds : s'.fds ≡ s.fds
    fd_in : c'.fd_in ≡ c.fd_in
    fd_out : c'.fd_out ≡ c.fd_out
    rd_count : c'.rd_count ≡ c.rd_count
    rd_in : c'.rd_in ≡ c.rd_in
    rd_out : c'.rd_out ≡ c.rd_out

  pub poll-fds : (s : Shell W Object) → (poll sys s).fds ≡ s.fds
  unfolding poll
  poll-fds s = ground arith

  abbrev maybe_start :
      (self : ℕ)
      → Command
      → Shell W Object
      → Option ℕ
      → Option (Shell W Object × Command × Option ℕ)
  maybe_start self c s pid = if s.interrupted then some (s, c, pid) else start_command sys self c s

  start-Kept :
      (self : ℕ) (c : Command) (s : Shell W Object) (pid : Option ℕ)
      → c.cd ≡ false
      → (x : Shell W Object × Command × Option ℕ) × (maybe_start self c s pid ≡ some x)
        × Kept s x.0 c x.1
  unfolding start_command
  start-Kept self c s pid no_cd = elim (Bool-cases s.interrupted) [
    | inl e ↦ (
      (s, c, pid),
      if_true _ _ e,
      record {
        fds = refl;
        fd_in = refl;
        fd_out = refl;
        rd_count = refl;
        rd_in = refl;
        rd_out = refl;
      },
    )
    | inr e ↦ (
      _,
      if_false _ _ e ∙ if_false _ _ no_cd,
      record {
        fds = refl;
        fd_in = refl;
        fd_out = refl;
        rd_count = refl;
        rd_in = refl;
        rd_out = refl;
      },
    )
  ]

  wait-Kept :
      (s : Shell W Object) (pid : Option ℕ) (c : Command)
      → Kept s (wait_for sys s pid c).0 c (wait_for sys s pid c).1
  unfolding wait_for
  wait-Kept s pid c = record {
    fds = ground arith;
    fd_in = ground arith;
    fd_out = ground arith;
    rd_count = ground arith;
    rd_in = ground arith;
    rd_out = ground arith;
  }

  take_status-fds : (c : Command) (r : Running W Object) → (take_status c r).shell.fds ≡ r.shell.fds
  unfolding take_status
  take_status-fds c r = ground arith

  close_redirects-zero :
      (c : Command) (fds : Fds Object) → c.rd_count ≡ 0 → close_redirects c fds ≡ fds
  unfolding close_redirects
  close_redirects-zero c fds n = if_true {b = c.rd_count == 0} _ _ (ap (λ (m : ℕ). m == 0) n)

  close_pipe-none :
      (fd : Option ℕ) (rd : Option Redirect) (fds : Fds Object)
      → rd ≡ none
      → close_pipe fd rd fds ≡ close fd fds
  unfolding close_pipe
  close_pipe-none fd rd fds e = ap (λ rd. close_pipe fd rd fds) e

  close_left_open-plain :
      (c : Command) (fds : Fds Object)
      → c.rd_count ≡ 0
      → c.rd_in ≡ none
      → c.rd_out ≡ none
      → close_left_open c fds ≡ close c.fd_out (close c.fd_in fds)
  unfolding close_left_open
  close_left_open-plain c fds n i o =
      close_pipe-none c.fd_out c.rd_out _ o
      ∙ ap (close c.fd_out)
          (close_pipe-none c.fd_in c.rd_in _ i ∙ ap (close c.fd_in) (close_redirects-zero c fds n))

  -- what a round needs of the command
  pub record Bare (c : Command) : Type 0 where
    pub no_cd : c.cd ≡ false
    pub no_count : c.rd_count ≡ 0
    pub no_in : c.rd_in ≡ none
    pub no_out : c.rd_out ≡ none

  pub record Round (piped : Shell W Object × Pipeline) (c : Command)
      (out : Running W Object × Pipeline) : Type 0 where
    pub fds : out.0.shell.fds ≡ close c.fd_out (close c.fd_in piped.0.fds)
    pub pipefd : out.1.pipefd ≡ piped.1.pipefd

  run_pipeline-Round :
      (self : ℕ) (read : Option ℕ) (p : Pipeline) (r : Running W Object)
      → Bare (join_pipe sys read (make_pipe sys r.shell p).1)
      → (out : Running W Object × Pipeline) × (run_pipeline sys self read p r ≡ some out)
        × Round (make_pipe sys r.shell p) (join_pipe sys read (make_pipe sys r.shell p).1) out
  unfolding run_pipeline
  run_pipeline-Round self read p r bare =
      let piped = make_pipe sys r.shell p in
      let c = join_pipe sys read piped.1 in
      let s = poll sys piped.0 in
      let (x, x_runs, kept) = start-Kept self c s r.pid bare.no_cd in
      let waits = wait-Kept x.0 x.2 x.1 in
      let waited = wait_for sys x.0 x.2 x.1 in
      (
        _,
        bind-some _ x_runs,
        record {
          fds =
              take_status-fds waited.1 _
              ∙ close_left_open-plain waited.1 waited.0.fds
                  (waits.rd_count ∙ kept.rd_count ∙ bare.no_count)
                  (waits.rd_in ∙ kept.rd_in ∙ bare.no_in) (waits.rd_out ∙ kept.rd_out ∙ bare.no_out)
              ∙ (λ i. close ((waits.fd_out ∙ kept.fd_out) i) (
                  close ((waits.fd_in ∙ kept.fd_in) i)
                    ((waits.fds ∙ kept.fds ∙ poll-fds piped.0) i)));
          pipefd = refl;
        },
      )

  pub run_pipeline-Round_from :
      (self : ℕ) (read : Option ℕ) (p : Pipeline) (r : Running W Object)
      (piped : Shell W Object × Pipeline)
      → make_pipe sys r.shell p ≡ piped
      → Bare (join_pipe sys read piped.1)
      → (out : Running W Object × Pipeline) × (run_pipeline sys self read p r ≡ some out)
        × Round piped (join_pipe sys read piped.1) out
  run_pipeline-Round_from self read p r piped e =
      subst
        (λ (piped : Shell W Object × Pipeline).
          Bare (join_pipe sys read piped.1)
          → (out : Running W Object × Pipeline) × (run_pipeline sys self read p r ≡ some out)
            × Round piped (join_pipe sys read piped.1) out)
        e (run_pipeline-Round self read p r)

  pub join-Bare : (read : Option ℕ) (p : Pipeline) → Bare (p.command) → Bare (join_pipe sys read p)
  join-Bare read p h = record {
    no_cd = ground (arith, h.no_cd);
    no_count = ground (arith, h.no_count);
    no_in = ground (arith, h.no_in);
    no_out = ground (arith, h.no_out);
  }

  pub join-fd_in :
      (read : Option ℕ) (p : Pipeline)
      → (p.command).rd_in ≡ none
      → (p.command).fd_in ≡ none
      → (p.pipe_in ≡ none → read ≡ none)
      → (join_pipe sys read p).fd_in ≡ read
  join-fd_in read p i f j = ground (arith, i, f, j)

  pub join-fd_out :
      (read : Option ℕ) (p : Pipeline) → (join_pipe sys read p).fd_out ≡ (p.command).fd_out
  join-fd_out read p = ground arith
