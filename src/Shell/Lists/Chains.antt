-- ===== src/Shell/Lists/Chains.antt =====
-- What `eval_line` builds from pipes and from `&&` and `||`.
use cs61_psets.Common.{
  ℕ, ◌+◌, ◌≡◌, refl, ◌∙◌, ap, Bool, true, false, Option, none, some, List, [], ◌∷◌, ◌++◌,
  if◌then◌else◌, length, length-append, append_assoc,
}
use mathlib.Core.Path.{subst}
use cs61_psets.Shell.Token.{token_pipe}
use cs61_psets.Shell.Commands.{
  Token, Pipeline, Conditional, CommandList, pipeline_alloc, conditional_alloc,
  command_list_append_arg,
}
use cs61_psets.Shell.Lists.{
  Builder, whole_cond, whole_list, begin, begin_pipe, on_command, add_token, build,
}
use cs61_psets.Shell.Lists.Grammar.{
  Chain, one, pipe_to, AndOr, only, link, print_simple, print_chain, print_and_or, connective,
  terminator, with_items, pipes_of, conds_of,
}
use cs61_psets.Shell.Lists.Items.{Ready, begin-Ready, begin-same, build-onward, build-simple}

-- The operators, with no pointer about to move.
abbrev pipe_token : Token
pipe_token = record { type_ = token_pipe; text = 124 ∷ [] }

module _ (rest : List Token) (b : Builder) (r : Ready b) where
  build-pipe : build (pipe_token ∷ rest) b ≡ build rest (record b { new_pipe = true })
  unfolding add_token
  build-pipe =
      build-onward pipe_token rest b refl
      ∙ ap (λ b. build rest (record b { new_pipe = true })) (begin-same b r)

  build-connective :
      (either : Bool)
      → build (connective either ∷ rest) b
        ≡ build rest (record b {
          cond = record b.cond { continue_if = if either then 1 else 0 };
          new_cond = true;
        })
  unfolding add_token
  build-connective true =
      build-onward (connective true) rest b refl
      ∙ ap
          (λ b. build rest (record b { cond = record b.cond { continue_if = 1 }; new_cond = true }))
          (begin-same b r)
  build-connective false =
      build-onward (connective false) rest b refl
      ∙ ap
          (λ b. build rest (record b { cond = record b.cond { continue_if = 0 }; new_cond = true }))
          (begin-same b r)

  pub build-terminator :
      (background : Bool)
      → build (terminator background ∷ rest) b
        ≡ build rest (record b {
          list = record b.list { background = if background then true else b.list.background };
          new_list = true;
        })
  unfolding add_token
  build-terminator true =
      build-onward (terminator true) rest b refl
      ∙ ap
          (λ b.
            build rest (record b { list = record b.list { background = true }; new_list = true }))
          (begin-same b r)
  build-terminator false =
      build-onward (terminator false) rest b refl
      ∙ ap (λ b. build rest (record b { new_list = true })) (begin-same b r)

pipes-append :
    (at : List Pipeline) (p : Pipeline) (ch : Chain) (pipe_in : Option ℕ)
    → (at ++ (p ∷ [])) ++ pipes_of ch (length (at ++ (p ∷ []))) pipe_in
      ≡ at ++ (p ∷ pipes_of ch (length at + 1) pipe_in)
pipes-append at p ch pipe_in =
    ap (λ n. (at ++ (p ∷ [])) ++ pipes_of ch n pipe_in) (length-append at (p ∷ []))
    ∙ append_assoc at (p ∷ []) (pipes_of ch (length at + 1) pipe_in)

-- the builder after a pipe operator
abbrev piped : Builder → Builder
piped b = begin_pipe (record b { new_pipe = true })

begin-piped : (b : Builder) → Ready b → begin (record b { new_pipe = true }) ≡ piped b
unfolding begin
begin-piped b r = rw (r.list, r.cond) refl

-- `b'` is `b` with `pipes` behind the pipelines of its conditional
record Piped (b b' : Builder) (pipes : List Pipeline) : Type 0 where
  ready : Ready b'
  group : b'.group ≡ b.group
  list : b'.list ≡ b.list
  cond : whole_cond b' ≡ record b.cond { cond_argv = b.cond.cond_argv ++ pipes }

build-chain :
    (ch : Chain) (rest : List Token) (b : Builder) (pipe_in : Option ℕ)
    → (begin b).pipe ≡ record pipeline_alloc { pipe_in = pipe_in }
    → (b' : Builder) × (build (print_chain ch ++ rest) b ≡ build rest b')
      × Piped (begin b) b' (pipes_of ch (length (begin b).cond.cond_argv) pipe_in)
build-chain (one s) rest b pipe_in e =
    let r = begin-Ready b in
    (
      on_command (with_items (s.first ∷ s.others)) (begin b),
      build-simple s rest b,
      record {
        ready = record { list = r.list; cond = r.cond; pipe = r.pipe };
        group = refl;
        list = refl;
        cond =
            ap
              (λ p. record (begin b).cond {
                cond_argv =
                    (begin b).cond.cond_argv
                    ++ (record p { command = with_items (s.first ∷ s.others) p.command } ∷ []);
              })
              e;
      },
    )
build-chain (pipe_to s ch) rest b pipe_in e =
    let r = begin-Ready b in
    let at = (begin b).cond.cond_argv in
    let items = with_items (s.first ∷ s.others) in
    let b1 : Builder = on_command items (begin b) in
    let r1 : Ready b1 = record { list = r.list; cond = r.cond; pipe = r.pipe } in
    let b2 : Builder = record b1 { new_pipe = true } in
    let moves = begin-piped b1 r1 in
    let (b', runs, p) = build-chain ch rest b2 (some (length at)) (ap (λ b. b.pipe) moves) in
    let p' : Piped (piped b1) b'
        (pipes_of ch (length (piped b1).cond.cond_argv) (some (length at))) =
      subst (λ b. Piped b b' (pipes_of ch (length b.cond.cond_argv) (some (length at)))) moves p in
    (
      b',
      ap (λ ts. build ts b) (append_assoc (print_simple s) (pipe_token ∷ print_chain ch) rest)
          ∙ build-simple s (pipe_token ∷ (print_chain ch ++ rest)) b
          ∙ build-pipe (print_chain ch ++ rest) b1 r1
          ∙ runs,
      record {
        ready = p'.ready;
        group = p'.group;
        list = p'.list;
        cond =
            p'.cond
            ∙ ap (λ ps. record (begin b).cond { cond_argv = ps })
                (pipes-append at (record b1.pipe { pipe_out = some (length at + 1) }) ch
                  (some (length at)))
            ∙ ap
                (λ p. record (begin b).cond {
                  cond_argv =
                      at
                      ++ (record p { command = items p.command; pipe_out = some (length at + 1) }
                          ∷ pipes_of ch (length at + 1) (some (length at)));
                })
                e;
      },
    )

-- `b'` is `b` with `conds` behind the conditionals of its list
pub record Linked (b b' : Builder) (conds : List Conditional) : Type 0 where
  pub ready : Ready b'
  pub group : b'.group ≡ b.group
  pub background : b'.list.background ≡ b.list.background
  pub list : whole_list b' ≡ record b.list { cargv = b.list.cargv ++ conds }

piped_cond :
    (ch : Chain) (c : Conditional)
    → c ≡ conditional_alloc
    → record c { cond_argv = c.cond_argv ++ pipes_of ch (length c.cond_argv) none }
      ≡ record conditional_alloc { cond_argv = pipes_of ch 0 none }
piped_cond ch c e =
    ap {A = Conditional}
      (λ c. record c { cond_argv = c.cond_argv ++ pipes_of ch (length c.cond_argv) none }) e

with_cond :
    (l : CommandList) {c d : Conditional}
    → c ≡ d
    → command_list_append_arg l c ≡ command_list_append_arg l d
with_cond l e = ap (command_list_append_arg l) e

-- the builder after `&&` or `||`
abbrev linked : Builder → ℕ → Builder
linked b continue_if = record b {
  list = command_list_append_arg b.list (record (whole_cond b) { continue_if = continue_if });
  cond = conditional_alloc;
  pipe = pipeline_alloc;
  new_cond = false;
}

begin-linked :
    (b : Builder) (continue_if : ℕ)
    → Ready b
    → begin (record b { cond = record b.cond { continue_if = continue_if }; new_cond = true })
      ≡ linked b continue_if
unfolding begin
begin-linked b continue_if r = rw (r.list, r.pipe) refl

pub build-and_or :
    (l : AndOr) (rest : List Token) (b : Builder)
    → (begin b).pipe ≡ pipeline_alloc
    → (begin b).cond ≡ conditional_alloc
    → (b' : Builder) × (build (print_and_or l ++ rest) b ≡ build rest b')
      × Linked (begin b) b' (conds_of l)
build-and_or (only ch) rest b e e' =
    let (b', runs, p) = build-chain ch rest b none e in
    (
      b',
      runs,
      record {
        ready = p.ready;
        group = p.group;
        background = ap {A = CommandList} (λ l. l.background) p.list;
        list =
            with_cond b'.list (p.cond ∙ piped_cond ch (begin b).cond e')
            ∙ ap {A = CommandList} (λ l. record l { cargv = l.cargv ++ conds_of (only ch) }) p.list;
      },
    )
build-and_or (link ch either l) rest b e e' =
    let (b1, runs, p) = build-chain ch (connective either ∷ (print_and_or l ++ rest)) b none e in
    let b2 : Builder = record b1 {
      cond = record b1.cond { continue_if = if either then 1 else 0 };
      new_cond = true;
    } in
    let moves = begin-linked b1 (if either then 1 else 0) p.ready in
    let (b', runs', q) =
      build-and_or l rest b2 (ap {A = Builder} (λ b. b.pipe) moves)
        (ap {A = Builder} (λ b. b.cond) moves) in
    let q' : Linked (linked b1 (if either then 1 else 0)) b' (conds_of l) =
      subst (λ b. Linked b b' (conds_of l)) moves q in
    (
      b',
      ap (λ ts. build ts b)
            (append_assoc (print_chain ch) (connective either ∷ print_and_or l) rest)
          ∙ runs
          ∙ build-connective (print_and_or l ++ rest) b1 p.ready either
          ∙ runs',
      record {
        ready = q'.ready;
        group = q'.group ∙ p.group;
        background = q'.background ∙ ap {A = CommandList} (λ l. l.background) p.list;
        list =
            q'.list
            ∙ ap {A = List Conditional} (λ cs. record b1.list { cargv = cs })
                (append_assoc b1.list.cargv
                  (record (whole_cond b1) { continue_if = if either then 1 else 0 } ∷ [])
                  (conds_of l))
            ∙ ap {A = Conditional}
                (λ c. record b1.list {
                  cargv =
                      b1.list.cargv
                      ++ (record c { continue_if = if either then 1 else 0 } ∷ conds_of l);
                })
                (p.cond ∙ piped_cond ch (begin b).cond e')
            ∙ ap {A = CommandList}
                (λ k. record k { cargv = k.cargv ++ conds_of (link ch either l) }) p.list;
      },
    )
