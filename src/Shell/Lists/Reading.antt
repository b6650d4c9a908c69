-- ===== src/Shell/Lists/Reading.antt =====
-- `eval_line` builds from a printed line what the line means.
use cs61_psets.Common.{
  ◌≡◌, refl, sym, ◌∙◌, ap, Bool, true, false, none, some, List, [], ◌∷◌, ◌++◌, if◌then◌else◌,
  append_assoc, append-nil,
}
use cs61_psets.Shell.Commands.{
  CommandList, pipeline_alloc, conditional_alloc, command_list_alloc, list_group_append_lst,
}
use cs61_psets.Shell.Lists.{Builder, fresh, whole_list, whole_group, begin, build}
use cs61_psets.Shell.Lists.Grammar.{
  AndOr, Line, final, then_, print_and_or, print_line, terminator, conds_of, lists_of,
}
use cs61_psets.Shell.Lists.Items.{Ready}
use cs61_psets.Shell.Lists.Chains.{build-terminator, Linked, build-and_or}

-- the builder after `;` or `&`
abbrev ended : Builder → Bool → Builder
ended b background = record b {
  list = record b.list { background = if background then true else b.list.background };
  new_list = true;
}

begin-ended :
    (b : Builder) (background : Bool)
    → Ready b
    → begin (ended b background) ≡ record fresh { group = whole_group (ended b background) }
unfolding begin
begin-ended b background r = rw (r.cond, r.pipe) refl

build_nil : (b : Builder) → build [] b ≡ b
unfolding build
build_nil b = refl

module _ (l : AndOr) (b b' : Builder) (p : Linked (begin b) b' (conds_of l))
    (e : (begin b).list ≡ command_list_alloc) where
  linked_list : whole_list b' ≡ record { cargv = conds_of l; background = false }
  linked_list = p.list ∙ ap {A = CommandList} (λ k. record k { cargv = k.cargv ++ conds_of l }) e

  ended_list :
      (background : Bool)
      → whole_list (ended b' background) ≡ record { cargv = conds_of l; background = background }
  ended_list true = ap {A = CommandList} (λ k. record k { background = true }) linked_list
  ended_list false = linked_list

  -- the whole group, where the list of `b'` is `k` in the end
  group_with :
      (k k' : CommandList) (lists : List CommandList)
      → k ≡ k'
      → list_group_append_lst b'.group k ++ lists ≡ (begin b).group ++ (k' ∷ lists)
  group_with k k' lists e =
      append_assoc b'.group (k ∷ []) lists
      ∙ ap {A = List CommandList} (λ g. g ++ (k ∷ lists)) p.group
      ∙ ap {A = CommandList} (λ k. (begin b).group ++ (k ∷ lists)) e

build-line :
    (l : Line) (b : Builder)
    → (begin b).pipe ≡ pipeline_alloc
    → (begin b).cond ≡ conditional_alloc
    → (begin b).list ≡ command_list_alloc
    → whole_group (build (print_line l) b) ≡ (begin b).group ++ lists_of l
build-line (final l none) b e e' e'' =
    let (b', runs, p) = build-and_or l [] b e e' in
    ap whole_group (ap (λ ts. build ts b) (sym (append-nil (print_and_or l))) ∙ runs ∙ build_nil b')
    ∙ sym (append-nil (whole_group b'))
    ∙ group_with l b b' p e'' (whole_list b') (record { cargv = conds_of l; background = false }) []
        (linked_list l b b' p e'')
build-line (final l (some background)) b e e' e'' =
    let (b', runs, p) = build-and_or l (terminator background ∷ []) b e e' in
    ap whole_group
      (runs ∙ build-terminator [] b' p.ready background ∙ build_nil (ended b' background))
    ∙ sym (append-nil (whole_group (ended b' background)))
    ∙ group_with l b b' p e'' (whole_list (ended b' background))
        (record { cargv = conds_of l; background = background }) []
        (ended_list l b b' p e'' background)
build-line (then_ l background rest) b e e' e'' =
    let (b', runs, p) = build-and_or l (terminator background ∷ print_line rest) b e e' in
    let moves = begin-ended b' background p.ready in
    let later =
      build-line rest (ended b' background) (ap {A = Builder} (λ b. b.pipe) moves)
        (ap {A = Builder} (λ b. b.cond) moves) (ap {A = Builder} (λ b. b.list) moves) in
    ap whole_group (runs ∙ build-terminator (print_line rest) b' p.ready background)
    ∙ later
    ∙ ap {A = Builder} (λ b. b.group ++ lists_of rest) moves
    ∙ group_with l b b' p e'' (whole_list (ended b' background))
        (record { cargv = conds_of l; background = background }) (lists_of rest)
        (ended_list l b b' p e'' background)

-- From the tokens of every line of the grammar, in which a command has a word or a redirection at
-- least, `eval_line` builds the lists, conditionals and pipelines that the line means.
pub build-print_line : (l : Line) → whole_group (build (print_line l) fresh) ≡ lists_of l
build-print_line l =
    build-line l fresh (unfold begin in refl) (unfold begin in refl) (unfold begin in refl)
    ∙ unfold begin in refl
