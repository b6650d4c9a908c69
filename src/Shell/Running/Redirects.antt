-- ===== src/Shell/Running/Redirects.antt =====
-- pset4/sh61.c: what handle_rd makes of the descriptor table.
use cs61_psets.Common.{
  ℕ, ◌≤◌, ◌≡◌, ◌≢◌, refl, ◌∙◌, sym, ap, arith, true, Option, none, some, some-injective, put,
  bind-inv,
}
use mathlib.Core.Path.{subst}
use cs61_psets.Shell.Commands.{Redirect, Direction, reads, writes, Command}
use cs61_psets.Shell.Starting.{
  Fds, System, Redirected, is_some, close, dup2, redirect_one, handle_rd,
}

-- `open`, `dup2` and `close` as `handle_rd` calls them
module _ {Object : Type 0} (fds : Fds Object) (new_fd fd : ℕ) (object : Object)
    (other : new_fd ≢ fd) where
  abbrev moved : Fds Object
  moved = close (some new_fd) (dup2 (some new_fd) (some fd) (put fds new_fd (some object)))

  moved_target : moved fd ≡ some object
  moved_target = ground (arith, other)

  moved_others : fds new_fd ≡ none → (d : ℕ) → d ≢ fd → moved d ≡ fds d
  moved_others free d h = ground (arith, free, h)

pub is_some-inv : {A : Type 0} (o : Option A) → is_some o ≡ true → (a : A) × (o ≡ some a)
is_some-inv none h = absurd (ground (arith, h))
is_some-inv (some a) h = (a, refl)

pub none_not_open : {A : Type 0} (o : Option A) → o ≡ none → is_some o ≡ true → ⊥
none_not_open o e h = ground (arith, e, h)

module _ {W : Type 0} {Object : Type 0} (sys : System W Object) where
  -- what a redirection opens, or else the file that is there, and the system behind it
  abbrev pub opened : (rd : Option Redirect) (mode : Direction) → W → Option Object → Option Object
  opened none mode w otherwise = otherwise
  opened (some rd) mode w otherwise = (sys.open_file w rd.filename mode).1

  abbrev pub after_open : (rd : Option Redirect) (mode : Direction) → W → W
  after_open none mode w = w
  after_open (some rd) mode w = (sys.open_file w rd.filename mode).0

  -- the redirection is to the standard descriptor `fd`, as `eval_line` sets it
  abbrev pub Targets : (fd : ℕ) → Option Redirect → Type 0
  Targets fd none = Unit
  Targets fd (some rd) = rd.redirect_fd ≡ some fd

  -- a table in which `lowest` takes a free descriptor that is not a standard one
  pub record OneOpened (rd : Option Redirect) (mode : Direction) (fd : ℕ) (w : W) (fds : Fds Object)
      (r : Redirected W Object) : Type 0 where
    pub world : r.0 ≡ after_open rd mode w
    pub target : r.1 fd ≡ opened rd mode w (fds fd)
    pub others : (d : ℕ) → d ≢ fd → r.1 d ≡ fds d
    pub there : is_some (r.2) ≡ is_some rd

  pub redirect_one-OneOpened :
      (mode : Direction) (fd : ℕ) (w : W) (fds : Fds Object) (rd : Option Redirect)
      {r : Redirected W Object}
      → ((n : ℕ) → sys.lowest fds ≡ some n → (fds n ≡ none) × (n ≢ fd))
      → Targets fd rd
      → redirect_one sys mode w fds rd ≡ some r
      → OneOpened rd mode fd w fds r
  unfolding redirect_one
  redirect_one-OneOpened mode fd w fds none {r} free t e =
      subst (OneOpened none mode fd w fds) (some-injective _ _ e)
        (record { world = refl; target = refl; others = λ d h. refl; there = refl })
  redirect_one-OneOpened mode fd w fds (some rd) {r} free t e =
      let (object, runs, e1) = bind-inv (sys.open_file w rd.filename mode).1 _ e in
      let (n, n_runs, is) = bind-inv (sys.lowest fds) _ e1 in
      let (unused, other) = free n n_runs in
      subst (OneOpened (some rd) mode fd w fds) (some-injective _ _ is) (record {
        world = refl;
        target =
            ap (λ to. close (some n) (dup2 (some n) to (put fds n (some object))) fd) t
            ∙ moved_target fds n fd object other
            ∙ sym runs;
        others = λ d h.
            ap (λ to. close (some n) (dup2 (some n) to (put fds n (some object))) d) t
            ∙ moved_others fds n fd object other unused d h;
        there = refl;
      })

  -- `lowest` gives out a descriptor that is not in use
  abbrev pub Fresh : Type 0
  Fresh = (fds : Fds Object) (n : ℕ) → sys.lowest fds ≡ some n → fds n ≡ none

  -- the descriptor is in use
  abbrev pub Open : Fds Object → ℕ → Type 0
  Open fds fd = is_some (fds fd) ≡ true

  pub fresh-ne :
      Fresh
      → (fds : Fds Object) (fd : ℕ) → Open fds fd
      → (n : ℕ) → sys.lowest fds ≡ some n
      → (fds n ≡ none) × (n ≢ fd)
  fresh-ne fresh fds fd h n e =
      (fresh fds n e, λ is. none_not_open (fds fd) (ap fds (sym is) ∙ fresh fds n e) h)

  -- What `handle_rd` makes of the table.
  pub record Handled (c : Command) (w : W) (fds : Fds Object) (r : W × Fds Object × Command)
      : Type 0 where
    pub input : r.1 0 ≡ opened c.rd_in reads w (fds 0)
    pub output : r.1 1 ≡ opened c.rd_out writes (after_open c.rd_in reads w) (fds 1)
    pub error :
        r.1 2
        ≡ opened c.rd_err writes (after_open c.rd_out writes (after_open c.rd_in reads w)) (fds 2)
    pub others : (d : ℕ) → 3 ≤ d → r.1 d ≡ fds d
    pub in_there : is_some (r.2).rd_in ≡ is_some c.rd_in
    pub out_there : is_some (r.2).rd_out ≡ is_some c.rd_out
    pub pipes : ((r.2).fd_in ≡ c.fd_in) × ((r.2).fd_out ≡ c.fd_out) × ((r.2).argv ≡ c.argv)

  chain-Handled :
      (c : Command) (w : W) (fds : Fds Object) (a b x : Redirected W Object)
      → OneOpened c.rd_in reads 0 w fds a
      → OneOpened c.rd_out writes 1 a.0 a.1 b
      → OneOpened c.rd_err writes 2 b.0 b.1 x
      → Handled c w fds (x.0, x.1, record c { rd_in = a.2; rd_out = b.2; rd_err = x.2 })
  chain-Handled c w fds a b x ha hb hx = record {
    input = hx.others 0 (omega arith) ∙ hb.others 0 (omega arith) ∙ ha.target;
    output =
        hx.others 1 (omega arith)
        ∙ hb.target
        ∙ ap (λ (w' : W). opened c.rd_out writes w' (a.1 1)) ha.world
        ∙ ap (opened c.rd_out writes (after_open c.rd_in reads w)) (ha.others 1 (omega arith));
    error =
        hx.target
        ∙ ap (λ (w' : W). opened c.rd_err writes w' (b.1 2))
            (hb.world ∙ ap (after_open c.rd_out writes) ha.world)
        ∙ ap (opened c.rd_err writes (after_open c.rd_out writes (after_open c.rd_in reads w)))
            (hb.others 2 (omega arith) ∙ ha.others 2 (omega arith));
    others = λ d h.
        hx.others d (omega (arith, h))
        ∙ hb.others d (omega (arith, h))
        ∙ ha.others d (omega (arith, h));
    in_there = ha.there;
    out_there = hb.there;
    pipes = (refl, refl, refl);
  }

  abbrev pub StandardOpen : Fds Object → Type 0
  StandardOpen fds = Open fds 0 × Open fds 1 × Open fds 2

  abbrev pub Targeted : Command → Type 0
  Targeted c = Targets 0 c.rd_in × Targets 1 c.rd_out × Targets 2 c.rd_err

  redirects-Handled :
      Fresh
      → (c : Command) (w : W) (fds : Fds Object) (a b x : Redirected W Object) → StandardOpen fds
      → Targeted c
      → redirect_one sys reads w fds c.rd_in ≡ some a
      → redirect_one sys writes a.0 a.1 c.rd_out ≡ some b
      → redirect_one sys writes b.0 b.1 c.rd_err ≡ some x
      → Handled c w fds (x.0, x.1, record c { rd_in = a.2; rd_out = b.2; rd_err = x.2 })
  redirects-Handled fresh c w fds a b x o t a_runs b_runs x_runs =
      let ha = redirect_one-OneOpened reads 0 w fds c.rd_in (fresh-ne fresh fds 0 o.0) t.0 a_runs in
      let a1 : Open a.1 1 = ap is_some (ha.others 1 (omega arith)) ∙ o.1 in
      let hb =
        redirect_one-OneOpened writes 1 a.0 a.1 c.rd_out (fresh-ne fresh a.1 1 a1) t.1 b_runs in
      let b2 : Open b.1 2 =
        ap is_some (hb.others 2 (omega arith) ∙ ha.others 2 (omega arith)) ∙ o.2 in
      chain-Handled c w fds a b x ha hb
        (redirect_one-OneOpened writes 2 b.0 b.1 c.rd_err (fresh-ne fresh b.1 2 b2) t.2 x_runs)

  pub handle_rd-Handled :
      Fresh
      → (c : Command) (w : W) (fds : Fds Object) {r : W × Fds Object × Command} → StandardOpen fds
      → Targeted c
      → handle_rd sys w fds c ≡ some r
      → Handled c w fds r
  unfolding handle_rd
  handle_rd-Handled fresh c w fds {r} o t e =
      let (a, a_runs, e1) = bind-inv (redirect_one sys reads w fds c.rd_in) _ e in
      let (b, b_runs, e2) = bind-inv (redirect_one sys writes a.0 a.1 c.rd_out) _ e1 in
      let (x, x_runs, e3) = bind-inv (redirect_one sys writes b.0 b.1 c.rd_err) _ e2 in
      subst (Handled c w fds) (some-injective _ _ e3)
        (redirects-Handled fresh c w fds a b x o t a_runs b_runs x_runs)

  pub Handled-none :
      (c : Command) (w : W) (fds : Fds Object)
      → (c.rd_in ≡ none) × (c.rd_out ≡ none) × (c.rd_err ≡ none)
      → Handled c w fds (w, fds, c)
  Handled-none c w fds (i, o, e) = record {
    input = ap (λ rd. opened rd reads w (fds 0)) (sym i);
    output = ap (λ rd. opened rd writes (after_open c.rd_in reads w) (fds 1)) (sym o);
    error =
        ap
          (λ rd. opened rd writes (after_open c.rd_out writes (after_open c.rd_in reads w)) (fds 2))
          (sym e);
    others = λ d h. refl;
    in_there = refl;
    out_there = refl;
    pipes = (refl, refl, refl);
  }
