-- ===== src/Shell/Running/Descriptors.antt =====
-- What the standard descriptors of a command are when it is executed.
use cs61_psets.Common.{
  ℕ, ◌≤◌, ◌<◌, ◌≡◌, ◌≢◌, refl, ◌∙◌, sym, ap, inl, inr, arith, Option, none, some, some-injective,
  ◌==◌, List, get_elem?, if◌then◌else◌, if_true, if_false, ==_iff, Bool-cases, bind-inv, bind-some,
}
use mathlib.Core.Path.{subst}
use mathlib.Core.Option.{none-ne-some}
use cs61_psets.Shell.Commands.{Redirect, reads, writes, Command}
use cs61_psets.Shell.Starting.{Fds, Image, System, handle_rd, take_pipe, child_branch}
use cs61_psets.Shell.Running.Redirects.{
  opened, after_open, Fresh, Open, Handled, StandardOpen, Targeted, handle_rd-Handled, Handled-none,
}
use cs61_psets.Shell.Running.Opening.{AllOpen, Finds, Free, handle_runs}
use cs61_psets.Shell.Running.Ends.{end_of, High, pipe_end, pipe_others}

not_zero : (n : ℕ) → 3 ≤ n → n ≢ 0
not_zero n h = omega (arith, h)

not_one : (n : ℕ) → 3 ≤ n → n ≢ 1
not_one n h = omega (arith, h)

module _ {W : Type 0} {Object : Type 0} (sys : System W Object) where
  -- The standard input, output and error of a command: what it is redirected to, or else its end of
  -- a pipe, or else what the shell has; and every other descriptor is the shell's.
  pub record Wired (c : Command) (w : W) (fds : Fds Object) (image : Image Object) : Type 0 where
    pub input : image.fds 0 ≡ opened sys c.rd_in reads w (end_of sys c.fd_in 0 fds)
    pub output :
        image.fds 1
        ≡ opened sys c.rd_out writes (after_open sys c.rd_in reads w) (end_of sys c.fd_out 1 fds)
    pub error :
        image.fds 2
        ≡ opened sys c.rd_err writes
            (after_open sys c.rd_out writes (after_open sys c.rd_in reads w))
            (fds 2)
    pub others : (d : ℕ) → 3 ≤ d → c.fd_in ≢ some d → c.fd_out ≢ some d → image.fds d ≡ fds d
    pub argv : image.argv ≡ c.argv
    pub file : get_elem? c.argv 0 ≡ some image.file

  -- rd_count counts the redirections
  abbrev pub Counted : Command → Type 0
  Counted c = c.rd_count ≡ 0 → (c.rd_in ≡ none) × (c.rd_out ≡ none) × (c.rd_err ≡ none)

  abbrev child_image : Command → Fds Object → (file : List ℕ) → Image Object
  child_image d fds file = record {
    fds = take_pipe sys d.fd_out d.rd_out 1 (take_pipe sys d.fd_in d.rd_in 0 fds);
    file = file;
    argv = d.argv;
  }

  -- the ends of pipes that a command is given are neither standard descriptors nor the same
  abbrev pub Apart : (fd_in fd_out : Option ℕ) → Type 0
  Apart fd_in fd_out =
      High sys fd_in × High sys fd_out × ((f : ℕ) → fd_out ≡ some f → fd_in ≢ some f)

  -- and they are open
  abbrev pub EndsOpen : Command → Fds Object → Type 0
  EndsOpen c fds =
      ((f : ℕ) → c.fd_in ≡ some f → Open sys fds f) × ((f : ℕ) → c.fd_out ≡ some f → Open sys fds f)

  High-some : (fd : Option ℕ) (f : ℕ) → High sys fd → fd ≡ some f → 3 ≤ f
  High-some none f hi e = absurd (none-ne-some f e)
  High-some (some g) f hi e = omega (arith, hi, some-injective g f e)

  low_other : (fd : Option ℕ) (f : ℕ) → High sys fd → f < 3 → fd ≢ some f
  low_other fd f hi low e = omega (arith, High-some fd f hi e, low)

  abbrev image_of :
      (c : Command) (rin rout : Option Redirect) → Fds Object → (file : List ℕ) → Image Object
  image_of c rin rout fds file = record {
    fds = take_pipe sys c.fd_out rout 1 (take_pipe sys c.fd_in rin 0 fds);
    file = file;
    argv = c.argv;
  }

  image_of-Wired :
      (c : Command) (w : W) (fds : Fds Object) (w' : W) (fds' : Fds Object) (d : Command)
      → Apart c.fd_in c.fd_out
      → EndsOpen c fds
      → Handled sys c w fds (w', fds', d)
      → (file : List ℕ) → get_elem? c.argv 0 ≡ some file
      → Wired c w fds (image_of c d.rd_in d.rd_out fds' file)
  image_of-Wired c w fds w' fds' d (hi, ho, apart) ends h file word =
      let w1 = after_open sys c.rd_in reads w in
      let mid = take_pipe sys c.fd_in d.rd_in 0 fds' in
      record {
        input =
            pipe_others sys c.fd_out d.rd_out 1 mid 0 (omega arith)
              (low_other c.fd_out 0 ho (omega arith))
            ∙ pipe_end sys c.fd_in c.rd_in d.rd_in 0 reads w fds fds' (omega arith) hi h.in_there
                h.input (λ f e. (h.others f (High-some c.fd_in f hi e), ends.0 f e));
        output =
            pipe_end sys c.fd_out c.rd_out d.rd_out 1 writes w1 fds mid (omega arith) ho h.out_there
              (pipe_others sys c.fd_in d.rd_in 0 fds' 1 (omega arith)
                  (low_other c.fd_in 1 hi (omega arith))
                ∙ h.output)
              (λ f e. (
                pipe_others sys c.fd_in d.rd_in 0 fds' f (not_zero f (High-some c.fd_out f ho e))
                      (apart f e)
                    ∙ h.others f (High-some c.fd_out f ho e),
                ends.1 f e,
              ));
        error =
            pipe_others sys c.fd_out d.rd_out 1 mid 2 (omega arith)
              (low_other c.fd_out 2 ho (omega arith))
            ∙ pipe_others sys c.fd_in d.rd_in 0 fds' 2 (omega arith)
                (low_other c.fd_in 2 hi (omega arith))
            ∙ h.error;
        others = λ k high no_in no_out.
            pipe_others sys c.fd_out d.rd_out 1 mid k (not_one k high) no_out
            ∙ pipe_others sys c.fd_in d.rd_in 0 fds' k (not_zero k high) no_in
            ∙ h.others k high;
        argv = refl;
        file = word;
      }

  Handled-Wired :
      (c : Command) (w : W) (fds : Fds Object) (w' : W) (fds' : Fds Object) (d : Command)
      → Apart c.fd_in c.fd_out
      → EndsOpen c fds
      → Handled sys c w fds (w', fds', d)
      → (file : List ℕ) → get_elem? d.argv 0 ≡ some file
      → Wired c w fds (child_image d fds' file)
  Handled-Wired c w fds w' fds' d apart ends h file word =
      let (i, o, a) = h.pipes in
      subst (Wired c w fds)
        (λ k. record {
          fds = take_pipe sys (sym o k) d.rd_out 1 (take_pipe sys (sym i k) d.rd_in 0 fds');
          file = file;
          argv = sym a k;
        })
        (image_of-Wired c w fds w' fds' d apart ends h file
          (ap (λ (v : List (List ℕ)). get_elem? v 0) (sym a) ∙ word))

  count-Handled :
      Fresh sys
      → (c : Command) (w : W) (fds : Fds Object) {r : W × Fds Object × Command}
      → StandardOpen sys fds
      → Targeted sys c
      → Counted c
      → (if c.rd_count == 0 then some (w, fds, c) else handle_rd sys w fds c) ≡ some r
      → Handled sys c w fds r
  count-Handled fresh c w fds {r} o t counted e = elim (Bool-cases (c.rd_count == 0)) [
    | inl z ↦
        subst (Handled sys c w fds) (some-injective _ _ (sym (if_true _ _ z) ∙ e))
          (Handled-none sys c w fds (counted ((==_iff _ 0).0 z)))
    | inr z ↦ handle_rd-Handled sys fresh c w fds o t (sym (if_false _ _ z) ∙ e)
  ]

  child_image-Wired :
      Fresh sys
      → (c : Command) (w : W) (fds : Fds Object) (r : W × Image Object) → StandardOpen sys fds
      → Targeted sys c
      → Counted c
      → Apart c.fd_in c.fd_out
      → EndsOpen c fds
      → child_branch sys c fds w ≡ some r
      → Wired c w fds r.1
  unfolding child_branch
  child_image-Wired fresh c w fds r o t counted apart ends e =
      let (h, h_runs, is) =
        bind-inv (if c.rd_count == 0 then some (w, fds, c) else handle_rd sys w fds c) _ e in
      let (file, word, is') = bind-inv (get_elem? (h.2).argv 0) _ is in
      subst (λ (r : W × Image Object). Wired c w fds r.1) (some-injective _ _ is')
        (Handled-Wired c w fds h.0 h.1 h.2 apart ends
          (count-Handled fresh c w fds o t counted h_runs) file word)

  child_runs :
      (limit : ℕ)
      → Fresh sys
      → Finds sys limit
      → (c : Command) (w : W) (fds : Fds Object) → Free sys limit fds
      → StandardOpen sys fds
      → Targeted sys c
      → Counted c
      → AllOpen sys c w
      → (file : List ℕ) → get_elem? c.argv 0 ≡ some file
      → (r : W × Image Object) × (child_branch sys c fds w ≡ some r)
  unfolding child_branch
  child_runs limit fresh finds c w fds f o t counted h file word =
      let (r, runs) = opening in
      let (_, _, a) = (count-Handled fresh c w fds o t counted runs).pipes in
      (
        (r.0, child_image r.2 r.1 file),
        bind-some _ runs ∙ bind-some _ (ap (λ (v : List (List ℕ)). get_elem? v 0) a ∙ word),
      )
    where
      opening :
          (r : W × Fds Object × Command) × ((if c.rd_count == 0
              then some (w, fds, c)
              else handle_rd sys w fds c)
            ≡ some r)
      opening = elim (Bool-cases (c.rd_count == 0)) [
        | inl z ↦ (_, if_true _ _ z)
        | inr z ↦
            let (r, runs) = handle_runs sys limit fresh finds c w fds f o t h in
            (_, if_false _ _ z ∙ runs)
      ]

  -- Where a new descriptor is one that is not in use, and there is one if one below the limit is
  -- free, as at least one is beside the standard ones, which are open in the shell, as the ends of
  -- pipes are that the command was given, which are two others, and where the redirections are such
  -- as eval_line builds and their files can be opened, the child of start_command for a command
  -- that has a word reaches execvp with the first word and all of them, and it has as its standard
  -- input, output and error the files that the command redirects them to, or else its ends of
  -- pipes, or else what the shell has, and every descriptor but the standard ones and the ends is
  -- as in the shell.
  pub child_branch-Wired :
      (limit : ℕ)
      → Fresh sys
      → Finds sys limit
      → (c : Command) (w : W) (fds : Fds Object) → Free sys limit fds
      → StandardOpen sys fds
      → Targeted sys c
      → Counted c
      → Apart c.fd_in c.fd_out
      → EndsOpen c fds
      → AllOpen sys c w
      → (file : List ℕ) → get_elem? c.argv 0 ≡ some file
      → (r : W × Image Object) × (child_branch sys c fds w ≡ some r) × Wired c w fds r.1
  child_branch-Wired limit fresh finds c w fds f o t counted apart ends all file word =
      let (r, runs) = child_runs limit fresh finds c w fds f o t counted all file word in
      (r, runs, child_image-Wired fresh c w fds r o t counted apart ends runs)
