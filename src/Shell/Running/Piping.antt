-- ===== src/Shell/Running/Piping.antt =====
-- One pipeline of `run_list` with the pipe to the next: the read end is what stays open.
use cs61_psets.Common.{
  ℕ, ◌≡◌, ◌≢◌, ◌∙◌, ap, inl, inr, arith, true, false, Option, none, some, ◌&&◌, not, if_true,
  if_false, put, Option-cases,
}
use cs61_psets.Shell.Commands.{Pipeline}
use cs61_psets.Shell.Running.{Running, make_pipe, run_pipeline}
use cs61_psets.Shell.Starting.{Fds, System, Shell, is_some, close}
use cs61_psets.Shell.Running.Rounds.{
  Bare, run_pipeline-Round_from, join-Bare, join-fd_in, join-fd_out,
}

-- A pipeline that has not run, without redirections and not `cd`.
pub record Plain (p : Pipeline) : Type 0 where
  pub no_cd : (p.command).cd ≡ false
  pub no_count : (p.command).rd_count ≡ 0
  pub no_in : (p.command).rd_in ≡ none
  pub no_out : (p.command).rd_out ≡ none
  pub fd_in : (p.command).fd_in ≡ none
  pub fd_out : (p.command).fd_out ≡ none
  pub pipefd : p.pipefd ≡ (none, none)

module _ {W : Type 0} {Object : Type 0} (sys : System W Object) where
  -- `pipe` gives out two descriptors that are not in use
  abbrev pub FreshTwo : Type 0
  FreshTwo =
      (fds : Fds Object) (r w : ℕ)
      → sys.lowest_two fds ≡ some (r, w)
      → (fds r ≡ none) × (fds w ≡ none) × (r ≢ w)

  -- The table `now` is the table `base` but for the read end that is still open.
  abbrev pub UpTo : (pend : Option ℕ) → (base now : Fds Object) → Type 0
  UpTo pend base now = (d : ℕ) → close pend now d ≡ base d

  -- a pipeline that is not the last: its pipe is opened, and all but the read end of it closed
  opened_pipe :
      (base now : Fds Object) (pend : Option ℕ) (r w : ℕ) (a b : Object)
      → UpTo pend base now
      → now r ≡ none
      → now w ≡ none
      → r ≢ w
      → UpTo (some r) base (close (some w) (close pend (put (put now r (some a)) w (some b))))
  opened_pipe base now none r w a b up fr fw ne d = ground (arith, up d, fr, fw, ne)
  opened_pipe base now (some q) r w a b up fr fw ne d = ground (arith, up d, fr, fw, ne)

  Plain-Bare : (p : Pipeline) → Plain p → Bare sys (p.command)
  Plain-Bare p h = record {
    no_cd = h.no_cd;
    no_count = h.no_count;
    no_in = h.no_in;
    no_out = h.no_out;
  }

  failed-Bare : (p : Pipeline) → Plain p → Bare sys (record (p.command) { fd_out = p.pipefd.1 })
  failed-Bare p h = record {
    no_cd = h.no_cd;
    no_count = h.no_count;
    no_in = h.no_in;
    no_out = h.no_out;
  }

  piped-Bare :
      (p : Pipeline) (r w : ℕ) → Plain p → Bare sys (record (p.command) { fd_out = some w })
  piped-Bare p r w h = record {
    no_cd = h.no_cd;
    no_count = h.no_count;
    no_in = h.no_in;
    no_out = h.no_out;
  }

  no_pipe : (s : Shell W Object) (p : Pipeline) → p.pipe_out ≡ none → make_pipe sys s p ≡ (s, p)
  unfolding make_pipe
  no_pipe s p e =
      if_false {b = is_some p.pipe_out && not (is_some (p.command).rd_out)} _ _ (ground (arith, e))

  pub last_round :
      (self : ℕ) (read : Option ℕ) (p : Pipeline) (r : Running W Object) (base : Fds Object)
      → Plain p
      → p.pipe_out ≡ none
      → (p.pipe_in ≡ none → read ≡ none)
      → UpTo read base r.shell.fds
      → (out : Running W Object × Pipeline) × (run_pipeline sys self read p r ≡ some out)
        × UpTo none base out.0.shell.fds
  last_round self read p r base plain last j up =
      let (out, runs, ok) =
        run_pipeline-Round_from sys self read p r (r.shell, p) (no_pipe r.shell p last)
          (join-Bare sys read p (Plain-Bare p plain)) in
      (
        out,
        runs,
        λ d.
            ap (λ (f : Fds Object). f d)
              (ok.fds ∙ (λ i.
                close ((join-fd_out sys read p ∙ plain.fd_out) i)
                  (close (join-fd_in sys read p plain.no_in plain.fd_in j i) r.shell.fds)))
            ∙ up d,
      )

  abbrev failed_pipe : Pipeline → Pipeline
  failed_pipe p = record p { command = record (p.command) { fd_out = p.pipefd.1 } }

  abbrev piped_shell : (s : Shell W Object) (r w : ℕ) → Shell W Object
  piped_shell s r w = record s {
    world = (sys.new_pipe s.world).0;
    fds = put (put s.fds r (some (sys.new_pipe s.world).1.0)) w (some (sys.new_pipe s.world).1.1);
  }

  abbrev piped_pipeline : Pipeline → (r w : ℕ) → Pipeline
  piped_pipeline p r w = record p {
    command = record (p.command) { fd_out = some w };
    pipefd = (some r, some w);
  }

  abbrev ends : Shell W Object → Pipeline → Option (ℕ × ℕ) → Shell W Object × Pipeline
  ends s p none = (s, failed_pipe p)
  ends s p (some (r, w)) = (piped_shell s r w, piped_pipeline p r w)

  wants_pipe :
      (p : Pipeline) {k : ℕ}
      → Plain p
      → p.pipe_out ≡ some k
      → (is_some p.pipe_out && not (is_some (p.command).rd_out)) ≡ true
  wants_pipe p plain next = ground (arith, next, plain.no_out)

  pipe_fails :
      (s : Shell W Object) (p : Pipeline) {k : ℕ}
      → Plain p
      → p.pipe_out ≡ some k
      → sys.lowest_two s.fds ≡ none
      → make_pipe sys s p ≡ (s, failed_pipe p)
  unfolding make_pipe
  pipe_fails s p plain next e = if_true _ _ (wants_pipe p plain next) ∙ ap (ends s p) e

  pipe_opens :
      (s : Shell W Object) (p : Pipeline) {k : ℕ} (r w : ℕ)
      → Plain p
      → p.pipe_out ≡ some k
      → sys.lowest_two s.fds ≡ some (r, w)
      → make_pipe sys s p ≡ (piped_shell s r w, piped_pipeline p r w)
  unfolding make_pipe
  pipe_opens s p r w plain next e = if_true _ _ (wants_pipe p plain next) ∙ ap (ends s p) e

  pub inner_round :
      FreshTwo
      → (self : ℕ) (read : Option ℕ) (p : Pipeline) (r : Running W Object) (base : Fds Object)
        {k : ℕ}
      → Plain p
      → p.pipe_out ≡ some k
      → (p.pipe_in ≡ none → read ≡ none)
      → UpTo read base r.shell.fds
      → (out : Running W Object × Pipeline) × (run_pipeline sys self read p r ≡ some out)
        × UpTo (out.1.pipefd.0) base out.0.shell.fds
  inner_round fresh self read p r base plain next j up =
      elim (Option-cases (sys.lowest_two r.shell.fds)) [
        | inl e ↦
            let (out, runs, ok) =
              run_pipeline-Round_from sys self read p r (r.shell, failed_pipe p)
                (pipe_fails r.shell p plain next e)
                (join-Bare sys read (failed_pipe p) (failed-Bare p plain)) in
            (
              out,
              runs,
              λ d.
                  ap (λ (x : Option ℕ × Option ℕ). close x.0 out.0.shell.fds d)
                    (ok.pipefd ∙ plain.pipefd)
                  ∙ ap (λ (f : Fds Object). f d)
                      (ok.fds ∙ (λ i.
                        close
                          ((join-fd_out sys read (failed_pipe p)
                              ∙ ap (λ (x : Option ℕ × Option ℕ). x.1) plain.pipefd)
                            i)
                          (close (join-fd_in sys read (failed_pipe p) plain.no_in plain.fd_in j i)
                            r.shell.fds)))
                  ∙ up d,
            )
        | inr ((a, b), e) ↦
            let (out, runs, ok) =
              run_pipeline-Round_from sys self read p r
                (piped_shell r.shell a b, piped_pipeline p a b)
                (pipe_opens r.shell p a b plain next e)
                (join-Bare sys read (piped_pipeline p a b) (piped-Bare p a b plain)) in
            let (fr, fw, ne) = fresh r.shell.fds a b e in
            (
              out,
              runs,
              λ d.
                  ap (λ (x : Option ℕ × Option ℕ). close x.0 out.0.shell.fds d) ok.pipefd
                  ∙ ap (λ (f : Fds Object). close (some a) f d)
                      (ok.fds ∙ (λ i. close (join-fd_out sys read (piped_pipeline p a b) i) (
                        close
                          (join-fd_in sys read (piped_pipeline p a b) plain.no_in plain.fd_in j i)
                          (piped_shell r.shell a b).fds)))
                  ∙ opened_pipe base r.shell.fds read a b (sys.new_pipe r.shell.world).1.0
                      (sys.new_pipe r.shell.world).1.1 up fr fw ne d,
            )
      ]
