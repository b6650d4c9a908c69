-- ===== src/Shell/Lists/Items.antt =====
-- What `eval_line` builds from the items of one command.
use cs61_psets.Common.{
  ℕ, suc, ◌+◌, ◌≡◌, refl, sym, ◌∙◌, ap, inl, inr, arith, Bool, true, false, Bool-cases, some, List,
  [], ◌∷◌, ◌++◌, ◌||◌, append_assoc, append-nil,
}
use cs61_psets.Shell.Token.{token_normal}
use cs61_psets.Shell.Commands.{Token, Command}
use cs61_psets.Shell.Lists.{
  Builder, begin, on_command, is_redirection, same_string, cd_word, add_redirect, add_word,
  add_token, build,
}
use cs61_psets.Shell.Lists.Grammar.{
  Channel, input, output, errors, Item, word, redirect, Simple, print_item, operator, words,
  count_redirects, has_cd, print_items, print_simple, with_items,
}

-- no pointer is about to move on
pub record Ready (b : Builder) : Type 0 where
  pub list : b.new_list ≡ false
  pub cond : b.new_cond ≡ false
  pub pipe : b.new_pipe ≡ false

pub begin-Ready : (b : Builder) → Ready (begin b)
unfolding begin
begin-Ready b = record { list = ground arith; cond = ground arith; pipe = ground arith }

pub begin-same : (b : Builder) → Ready b → begin b ≡ b
unfolding begin
begin-same b r = rw (r.list, r.cond, r.pipe) refl

pub build-onward :
    (t : Token) (rest : List Token) (b : Builder)
    → is_redirection t.type_ ≡ false
    → build (t ∷ rest) b ≡ build rest (add_token (begin b) t)
unfolding build
build-onward t [] b e = rw e refl
build-onward t (f ∷ rest) b e = rw e refl

or_false : (x : Bool) → x ≡ (x || false)
or_false true = refl
or_false false = refl

-- A word adds no redirection, and a redirection no word.
add_word-with_items : (c : Command) (w : List ℕ) → add_word c w ≡ with_items (word w ∷ []) c
unfolding add_word
add_word-with_items c w = elim (Bool-cases (same_string w cd_word)) [
  | inl is_cd ↦
      rw is_cd
        (λ j. record (with_items (word w ∷ []) c) { rd_count = count j; cd = or_true c.cd j })
  | inr other ↦
      rw other
        (λ j. record (with_items (word w ∷ []) c) { rd_count = count j; cd = or_false c.cd j })
]
  where
    count : c.rd_count ≡ c.rd_count + 0
    count = omega arith

    or_true : (x : Bool) → true ≡ (x || true)
    or_true true = refl
    or_true false = refl

add_redirect-with_items :
    (c : Command) (ch : Channel) (filename : List ℕ)
    → add_redirect c (operator ch) (some filename) ≡ with_items (redirect ch filename ∷ []) c
unfolding add_redirect
add_redirect-with_items c input filename = λ j.
    record (with_items (redirect input filename ∷ []) c) {
      argv = sym (append-nil c.argv) j;
      cd = or_false c.cd j;
    }
add_redirect-with_items c output filename = λ j.
    record (with_items (redirect output filename ∷ []) c) {
      argv = sym (append-nil c.argv) j;
      cd = or_false c.cd j;
    }
add_redirect-with_items c errors filename = λ j.
    record (with_items (redirect errors filename ∷ []) c) {
      argv = sym (append-nil c.argv) j;
      cd = or_false c.cd j;
    }

with_items-nil : (c : Command) → with_items [] c ≡ c
with_items-nil c =
    λ j. record c { argv = append-nil c.argv j; rd_count = count j; cd = sym (or_false c.cd) j }
  where
    count : c.rd_count + 0 ≡ c.rd_count
    count = omega arith

no_words : (c : Command) (is : List Item) → (c.argv ++ []) ++ words is ≡ c.argv ++ words is
no_words c is = ap (λ v. v ++ words is) (append-nil c.argv)

one_more :
    (c : Command) (is : List Item)
    → c.rd_count + 1 + count_redirects is ≡ c.rd_count + suc (count_redirects is)
one_more c is = omega arith

no_cd : (c : Command) (is : List Item) → ((c.cd || false) || has_cd is) ≡ (c.cd || has_cd is)
no_cd c is = ap (λ x. x || has_cd is) (sym (or_false c.cd))

-- one item more
with_items-cons :
    (i : Item) (is : List Item) (c : Command)
    → with_items is (with_items (i ∷ []) c) ≡ with_items (i ∷ is) c
with_items-cons (word w) is c = λ j. record (with_items (word w ∷ is) c) {
  argv = append_assoc c.argv (w ∷ []) (words is) j;
  rd_count = count j;
  cd = or_assoc c.cd (same_string w cd_word) (has_cd is) j;
}
  where
    count : c.rd_count + 0 + count_redirects is ≡ c.rd_count + count_redirects is
    count = omega arith

    or_assoc : (x y z : Bool) → ((x || (y || false)) || z) ≡ (x || (y || z))
    or_assoc x y z = ground arith
with_items-cons (redirect input filename) is c = λ j.
    record (with_items (redirect input filename ∷ is) c) {
      argv = no_words c is j;
      rd_count = one_more c is j;
      cd = no_cd c is j;
    }
with_items-cons (redirect output filename) is c = λ j.
    record (with_items (redirect output filename ∷ is) c) {
      argv = no_words c is j;
      rd_count = one_more c is j;
      cd = no_cd c is j;
    }
with_items-cons (redirect errors filename) is c = λ j.
    record (with_items (redirect errors filename ∷ is) c) {
      argv = no_words c is j;
      rd_count = one_more c is j;
      cd = no_cd c is j;
    }

build-item :
    (i : Item) (rest : List Token) (b : Builder)
    → build (print_item i ++ rest) b ≡ build rest (on_command (with_items (i ∷ [])) (begin b))
unfolding build add_token
build-item (word w) rest b =
    build-onward (record { type_ = token_normal; text = w }) rest b refl
    ∙ ap (λ c. build rest (on_command (λ _. c) (begin b)))
        (add_word-with_items (begin b).pipe.command w)
build-item (redirect ch filename) rest b =
    ap (λ c. build rest (on_command (λ _. c) (begin b)))
      (add_redirect-with_items (begin b).pipe.command ch filename)

build-items :
    (is : List Item) (rest : List Token) (b : Builder)
    → Ready b
    → build (print_items is ++ rest) b ≡ build rest (on_command (with_items is) b)
build-items [] rest b r =
    ap (λ c. build rest (on_command (λ _. c) b)) (sym (with_items-nil b.pipe.command))
build-items (i ∷ is) rest b r =
    ap (λ ts. build ts b) (append_assoc (print_item i) (print_items is) rest)
    ∙ build-item i (print_items is ++ rest) b
    ∙ ap (λ b. build (print_items is ++ rest) (on_command (with_items (i ∷ [])) b)) (begin-same b r)
    ∙ build-items is rest (on_command (with_items (i ∷ [])) b)
        (record { list = r.list; cond = r.cond; pipe = r.pipe })
    ∙ ap (λ c. build rest (on_command (λ _. c) b)) (with_items-cons i is b.pipe.command)

pub build-simple :
    (s : Simple) (rest : List Token) (b : Builder)
    → build (print_simple s ++ rest) b
      ≡ build rest (on_command (with_items (s.first ∷ s.others)) (begin b))
build-simple s rest b =
    let r = begin-Ready b in
    ap (λ ts. build ts b) (append_assoc (print_item s.first) (print_items s.others) rest)
    ∙ build-item s.first (print_items s.others ++ rest) b
    ∙ build-items s.others rest (on_command (with_items (s.first ∷ [])) (begin b))
        (record { list = r.list; cond = r.cond; pipe = r.pipe })
    ∙ ap (λ c. build rest (on_command (λ _. c) (begin b)))
        (with_items-cons s.first s.others (begin b).pipe.command)
