-- ===== src/Shell/Running/Opening.antt =====
-- When handle_rd returns: descriptors that are free, files that can be opened.
use cs61_psets.Common.{
  ℕ, ◌≤◌, ◌<◌, ◌≡◌, ◌≢◌, refl, ◌∙◌, ap, inl, inr, arith, true, Option, none, some, Option-cases,
  bind-some,
}
use mathlib.Core.Path.{subst}
use cs61_psets.Shell.Commands.{Redirect, Direction, reads, writes, Command}
use cs61_psets.Shell.Starting.{Fds, System, Redirected, is_some, redirect_one, handle_rd}
use cs61_psets.Shell.Running.Redirects.{
  none_not_open, is_some-inv, after_open, redirect_one-OneOpened, Fresh, Open, fresh-ne,
  StandardOpen, Targeted,
}

module _ {W : Type 0} {Object : Type 0} (sys : System W Object) where
  -- the file can be opened, if there is one
  abbrev pub Opens : (rd : Option Redirect) (mode : Direction) → W → Type 0
  Opens none mode w = Unit
  Opens (some rd) mode w = is_some (sys.open_file w rd.filename mode).1 ≡ true

  abbrev pub AllOpen : Command → W → Type 0
  AllOpen c w =
      Opens c.rd_in reads w
      × Opens c.rd_out writes (after_open sys c.rd_in reads w)
      × Opens c.rd_err writes (after_open sys c.rd_out writes (after_open sys c.rd_in reads w))

  redirect_runs :
      (mode : Direction) (w : W) (fds : Fds Object) (rd : Option Redirect)
      → is_some (sys.lowest fds) ≡ true
      → Opens rd mode w
      → (r : Redirected W Object) × (redirect_one sys mode w fds rd ≡ some r)
        × (after_open sys rd mode w ≡ r.0)
  unfolding redirect_one
  redirect_runs mode w fds none room h = ((w, fds, none), refl, refl)
  redirect_runs mode w fds (some rd) room h =
      elim (Option-cases (sys.open_file w rd.filename mode).1) [
        | inl e ↦ absurd (none_not_open _ e h)
        | inr (object, e) ↦
            let (n, n_is) = is_some-inv (sys.lowest fds) room in
            (_, bind-some _ e ∙ bind-some _ n_is, refl)
      ]

  -- `lowest` gives out a descriptor if one below the limit is not in use
  abbrev pub Finds : (limit : ℕ) → Type 0
  Finds limit =
      (fds : Fds Object) (n : ℕ) → n < limit → fds n ≡ none → is_some (sys.lowest fds) ≡ true

  -- a descriptor that is not in use
  pub record Free (limit : ℕ) (fds : Fds Object) : Type 0 where
    pub at : ℕ
    pub below : at < limit
    pub high : 3 ≤ at
    pub unused : fds at ≡ none

  Free-kept :
      (limit fd : ℕ) (fds fds' : Fds Object)
      → fd < 3
      → Free limit fds
      → ((d : ℕ) → d ≢ fd → fds' d ≡ fds d)
      → Free limit fds'
  Free-kept limit fd fds fds' low f h = record {
    at = f.at;
    below = f.below;
    high = f.high;
    unused = h f.at (omega (arith, low, f.high)) ∙ f.unused;
  }

  pub handle_runs :
      (limit : ℕ)
      → Fresh sys
      → Finds limit
      → (c : Command) (w : W) (fds : Fds Object) → Free limit fds
      → StandardOpen sys fds
      → Targeted sys c
      → AllOpen c w
      → (r : W × Fds Object × Command) × (handle_rd sys w fds c ≡ some r)
  unfolding handle_rd
  handle_runs limit fresh finds c w fds f o t (h0, h1, h2) =
      let (a, a_runs, a_world) =
        redirect_runs reads w fds c.rd_in (finds fds f.at f.below f.unused) h0 in
      let ha =
        redirect_one-OneOpened sys reads 0 w fds c.rd_in (fresh-ne sys fresh fds 0 o.0) t.0
          a_runs in
      let fa = Free-kept limit 0 fds a.1 (omega arith) f ha.others in
      let a1 : Open sys a.1 1 = ap is_some (ha.others 1 (omega arith)) ∙ o.1 in
      let (b, b_runs, b_world) =
        redirect_runs writes a.0 a.1 c.rd_out (finds a.1 fa.at fa.below fa.unused)
          (subst (Opens c.rd_out writes) a_world h1) in
      let hb =
        redirect_one-OneOpened sys writes 1 a.0 a.1 c.rd_out (fresh-ne sys fresh a.1 1 a1) t.1
          b_runs in
      let fb = Free-kept limit 1 a.1 b.1 (omega arith) fa hb.others in
      let x_world : after_open sys c.rd_out writes (after_open sys c.rd_in reads w) ≡ b.0 =
        ap (after_open sys c.rd_out writes) a_world ∙ b_world in
      let (x, x_runs, _) =
        redirect_runs writes b.0 b.1 c.rd_err (finds b.1 fb.at fb.below fb.unused)
          (subst (Opens c.rd_err writes) x_world h2) in
      (
        (x.0, x.1, record c { rd_in = a.2; rd_out = b.2; rd_err = x.2 }),
        bind-some _ a_runs ∙ bind-some _ b_runs ∙ bind-some _ x_runs,
      )
