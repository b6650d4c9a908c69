-- ===== src/Shell/Running/Ends.antt =====
-- The ends of pipes that the child of start_command takes.
use cs61_psets.Common.{
  ℕ, ◌≤◌, ◌<◌, ◌≡◌, ◌≢◌, refl, ◌∙◌, sym, ap, inl, inr, arith, Option, none, some, put_other,
  Option-cases,
}
use cs61_psets.Shell.Commands.{Redirect, Direction}
use cs61_psets.Shell.Starting.{Fds, System, is_some, close, dup2, take_pipe}
use cs61_psets.Shell.Running.Redirects.{none_not_open, opened, Open}

module _ {W : Type 0} {Object : Type 0} (sys : System W Object) where
  -- the end of a pipe that a command is given, or the standard descriptor of the shell
  abbrev pub end_of : (fd : Option ℕ) (standard : ℕ) → Fds Object → Option Object
  end_of none standard fds = fds standard
  end_of (some fd) standard fds = fds fd

  -- an end of a pipe is not a standard descriptor
  abbrev pub High : Option ℕ → Type 0
  High none = Unit
  High (some fd) = 3 ≤ fd

  pipe_taken :
      (f standard : ℕ) (fds from : Fds Object)
      → f ≢ standard
      → from f ≡ fds f
      → Open sys fds f
      → close (some f) (dup2 (some f) (some standard) from) standard ≡ fds f
  pipe_taken f standard fds from ne e h = elim (Option-cases (fds f)) [
    | inl n ↦ absurd (none_not_open _ n h)
    | inr (o, is) ↦ ground (arith, ne, e ∙ is, is)
  ]

  pub pipe_end :
      (fd : Option ℕ) (rd rd' : Option Redirect) (standard : ℕ) (mode : Direction) (w : W)
      (fds from : Fds Object)
      → standard < 3
      → High fd
      → is_some rd' ≡ is_some rd
      → from standard ≡ opened sys rd mode w (fds standard)
      → ((f : ℕ) → fd ≡ some f → (from f ≡ fds f) × Open sys fds f)
      → take_pipe sys fd rd' standard from standard ≡ opened sys rd mode w (end_of fd standard fds)
  unfolding take_pipe
  pipe_end none none rd' standard mode w fds from low hi there at ends = at
  pipe_end none (some rd) rd' standard mode w fds from low hi there at ends = at
  pipe_end (some f) (some rd) (some rd') standard mode w fds from low hi there at ends = at
  pipe_end (some f) (some rd) none standard mode w fds from low hi there at ends =
      absurd (ground (arith, there))
  pipe_end (some f) none (some rd') standard mode w fds from low hi there at ends =
      absurd (ground (arith, there))
  pipe_end (some f) none none standard mode w fds from low hi there at ends =
      pipe_taken f standard fds from (omega (arith, low, hi)) (ends f refl).0 (ends f refl).1

  dup2_other :
      (f standard : ℕ) (fds : Fds Object) (d : ℕ)
      → d ≢ standard
      → dup2 (some f) (some standard) fds d ≡ fds d
  dup2_other f standard fds d h = elim (Option-cases (fds f)) [
    | inl e ↦ ground (arith, e)
    | inr (o, e) ↦ ground (arith, e, h)
  ]

  pub pipe_others :
      (fd : Option ℕ) (rd : Option Redirect) (standard : ℕ) (fds : Fds Object) (d : ℕ)
      → d ≢ standard
      → fd ≢ some d
      → take_pipe sys fd rd standard fds d ≡ fds d
  unfolding take_pipe
  pipe_others none rd standard fds d h k = refl
  pipe_others (some f) (some rd) standard fds d h k = refl
  pipe_others (some f) none standard fds d h k =
      put_other (dup2 (some f) (some standard) fds) f d none (λ e. k (ap some (sym e)))
      ∙ dup2_other f standard fds d h
