-- ===== src/Shell/Lists.antt =====
-- pset4/sh61.c: how `eval_line` builds the lists of commands from the tokens of a line.
pub mod Grammar
pub mod Items
pub mod Chains
pub mod Tokens
pub mod Reading
mod Tests
use cs61_psets.Common.{
  ℕ, zero, suc, ◌+◌, Bool, true, false, Option, none, some, List, [], ◌∷◌, ◌++◌, ◌==◌, ◌&&◌, ◌||◌,
  if◌then◌else◌, ◌>>=◌, length,
}
use cs61_psets.Shell.Commands.{
  Token, Redirect, reads, writes, Command, Pipeline, Conditional, CommandList, rd_alloc,
  command_append_arg, pipeline_alloc, conditional_alloc, conditional_append_arg, command_list_alloc,
  command_list_append_arg, list_group_append_lst,
}
use cs61_psets.Shell.Token.{
  TokenType, token_normal, token_redirection, token_sequence, token_background, token_pipe,
  token_and, token_or, parse_shell_token,
}

-- The local variables of `eval_line`. `list`, `cond` and `pipe` always point to the last element of
-- the structure above them; each stands here beside the elements before it, and is appended when
-- the pointer moves on.
pub record Builder : Type 0 where
  pub group : List CommandList
  pub list : CommandList
  pub cond : Conditional
  pub pipe : Pipeline
  pub new_list : Bool
  pub new_cond : Bool
  pub new_pipe : Bool

abbrev pub fresh : Builder
fresh = record {
  group = [];
  list = command_list_alloc;
  cond = conditional_alloc;
  pipe = pipeline_alloc;
  new_list = false;
  new_cond = false;
  new_pipe = false;
}

abbrev pub whole_cond : Builder → Conditional
whole_cond b = conditional_append_arg b.cond b.pipe

abbrev pub whole_list : Builder → CommandList
whole_list b = command_list_append_arg b.list (whole_cond b)

abbrev pub whole_group : Builder → List CommandList
whole_group b = list_group_append_lst b.group (whole_list b)

abbrev pub begin_list : Builder → Builder
begin_list b =
    if b.new_list
    then record fresh { group = whole_group b; new_cond = b.new_cond; new_pipe = b.new_pipe }
    else b

abbrev pub begin_cond : Builder → Builder
begin_cond b =
    if b.new_cond
    then record b {
      list = whole_list b;
      cond = conditional_alloc;
      pipe = pipeline_alloc;
      new_cond = false;
    }
    else b

abbrev pub begin_pipe : Builder → Builder
begin_pipe b =
    let index = length b.cond.cond_argv in
    let old_pipe = record b.pipe { pipe_out = some (index + 1) } in
    if b.new_pipe
    then record b {
      cond = conditional_append_arg b.cond old_pipe;
      pipe = record pipeline_alloc { pipe_in = some index };
      new_pipe = false;
    }
    else b

-- What each round of the loop does first.
unfoldable pub begin : Builder → Builder
begin b = begin_pipe (begin_cond (begin_list b))

abbrev pub on_command : (Command → Command) → Builder → Builder
on_command f b = record b { pipe = record b.pipe { command = f b.pipe.command } }

-- `strcmp(s, t) == 0`
abbrev pub same_string : List ℕ → List ℕ → Bool
same_string [] [] = true
same_string (x ∷ xs) (y ∷ ys) = (x == y) && same_string xs ys
same_string _ _ = false

-- "<", ">", "2>" and "cd"
abbrev pub less : List ℕ
less = 60 ∷ []

abbrev pub greater : List ℕ
greater = 62 ∷ []

abbrev pub two_greater : List ℕ
two_greater = 50 ∷ 62 ∷ []

abbrev pub cd_word : List ℕ
cd_word = 99 ∷ 100 ∷ []

-- The branch of a redirection, with the file name that the next token gives.
unfoldable pub add_redirect : Command → (token : List ℕ) (filename : Option (List ℕ)) → Command
add_redirect c token filename =
    let rd : Redirect = record rd_alloc { filename = filename } in
    let counted = record c { rd_count = c.rd_count + 1 } in
    if same_string less token
    then record counted { rd_in = some (record rd { direction = reads; redirect_fd = some 0 }) }
    else if same_string greater token
    then record counted { rd_out = some (record rd { direction = writes; redirect_fd = some 1 }) }
    else if same_string two_greater token
    then record counted { rd_err = some (record rd { direction = writes; redirect_fd = some 2 }) }
    else counted

unfoldable pub add_word : Command → List ℕ → Command
add_word c token =
    command_append_arg (if same_string token cd_word then record c { cd = true } else c) token

-- The other branches of the loop; what is no operator, a parenthesis too, is a word.
unfoldable pub add_token : Builder → Token → Builder
unfolding add_word
add_token b t = elim t.type_ [
  | token_background ↦ record b { list = record b.list { background = true }; new_list = true }
  | token_sequence ↦ record b { new_list = true }
  | token_and ↦ record b { cond = record b.cond { continue_if = 0 }; new_cond = true }
  | token_or ↦ record b { cond = record b.cond { continue_if = 1 }; new_cond = true }
  | token_pipe ↦ record b { new_pipe = true }
  | _ ↦ on_command (λ c. add_word c t.text) b
]

abbrev pub is_redirection : TokenType → Bool
is_redirection token_redirection = true
is_redirection _ = false

-- The loop of `eval_line`. After a redirection it takes one token more, of whatever type.
unfoldable pub build : List Token → Builder → Builder
unfolding begin add_redirect add_token
build [] b = b
build (t ∷ []) b =
    if is_redirection t.type_
    then on_command (λ c. add_redirect c t.text none) (begin b)
    else add_token (begin b) t
build (t ∷ f ∷ rest) b =
    let redirected = build rest (on_command (λ c. add_redirect c t.text (some f.text)) (begin b)) in
    let onward = build (f ∷ rest) (add_token (begin b) t) in
    if is_redirection t.type_ then redirected else onward

-- the string in a block
abbrev pub string_of : List ℕ → List ℕ
string_of [] = []
string_of (c ∷ cs) = if c == 0 then [] else c ∷ string_of cs

-- The tokens that `parse_shell_token` gives to the loop, call by call; `none` is a pointer that
-- leaves the string.
unfoldable pub read_tokens : ℕ → Option (List ℕ) → Option (List Token)
unfolding parse_shell_token
read_tokens zero s = none
read_tokens (suc fuel) s = do
  (s', (type_, token)) ← parse_shell_token s
  let more = (do
    block ← token
    rest ← read_tokens fuel s'
    some (record { type_ = type_; text = string_of block } ∷ rest))
  elim s' [ none ↦ some [] | some _ ↦ more ]

-- The part of `eval_line` before the execution.
unfoldable pub parse_line : List ℕ → Option (List CommandList)
unfolding read_tokens build
parse_line s = do
  tokens ← read_tokens (length s + 1) (some s)
  some (whole_group (build tokens fresh))
