-- ===== src/Shell/Lists/Grammar.antt =====
-- A grammar of command lines, how a line of it is printed, and that `eval_line` builds it again.
use cs61_psets.Common.{
  ℕ, suc, ◌+◌, Bool, true, false, Option, none, some, List, [], ◌∷◌, ◌++◌, ◌||◌, if◌then◌else◌,
}
use cs61_psets.Shell.Token.{
  token_normal, token_redirection, token_sequence, token_background, token_pipe, token_and,
  token_or,
}
use cs61_psets.Shell.Commands.{
  Token, Redirect, reads, writes, Command, Pipeline, Conditional, CommandList, command_alloc,
}
use cs61_psets.Shell.Lists.{same_string, less, greater, two_greater, cd_word}

pub data Channel : Type 0 where
  input output errors : Channel

pub data Item : Type 0 where
  word : List ℕ → Item
  redirect : Channel → (filename : List ℕ) → Item

-- a command has an item at least
pub record Simple : Type 0 where
  pub first : Item
  pub others : List Item

pub data Chain : Type 0 where
  one : Simple → Chain
  pipe_to : Simple → Chain → Chain

-- with `true` for `||` and `false` for `&&`
pub data AndOr : Type 0 where
  only : Chain → AndOr
  link : Chain → Bool → AndOr → AndOr

-- with `true` for `&` and `false` for `;`; at the end of the line there may be neither
pub data Line : Type 0 where
  final : AndOr → Option Bool → Line
  then_ : AndOr → Bool → Line → Line

abbrev pub operator : Channel → List ℕ
operator input = less
operator output = greater
operator errors = two_greater

abbrev pub print_item : Item → List Token
print_item (word w) = record { type_ = token_normal; text = w } ∷ []
print_item (redirect ch filename) =
    record { type_ = token_redirection; text = operator ch }
    ∷ record { type_ = token_normal; text = filename }
    ∷ []

abbrev pub print_items : List Item → List Token
print_items [] = []
print_items (i ∷ is) = print_item i ++ print_items is

abbrev pub print_simple : Simple → List Token
print_simple s = print_item s.first ++ print_items s.others

abbrev pub print_chain : Chain → List Token
print_chain (one s) = print_simple s
print_chain (pipe_to s ch) =
    print_simple s ++ (record { type_ = token_pipe; text = 124 ∷ [] } ∷ print_chain ch)

abbrev pub connective : Bool → Token
connective true = record { type_ = token_or; text = 124 ∷ 124 ∷ [] }
connective false = record { type_ = token_and; text = 38 ∷ 38 ∷ [] }

abbrev pub print_and_or : AndOr → List Token
print_and_or (only ch) = print_chain ch
print_and_or (link ch either rest) = print_chain ch ++ (connective either ∷ print_and_or rest)

abbrev pub terminator : Bool → Token
terminator true = record { type_ = token_background; text = 38 ∷ [] }
terminator false = record { type_ = token_sequence; text = 59 ∷ [] }

abbrev pub print_line : Line → List Token
print_line (final l none) = print_and_or l
print_line (final l (some background)) = print_and_or l ++ (terminator background ∷ [])
print_line (then_ l background rest) = print_and_or l ++ (terminator background ∷ print_line rest)

-- What the line means: the words and the redirections of a command,
abbrev pub words : List Item → List (List ℕ)
words [] = []
words (word w ∷ is) = w ∷ words is
words (redirect ch filename ∷ is) = words is

abbrev pub count_redirects : List Item → ℕ
count_redirects [] = 0
count_redirects (word w ∷ is) = count_redirects is
count_redirects (redirect ch filename ∷ is) = suc (count_redirects is)

abbrev pub has_cd : List Item → Bool
has_cd [] = false
has_cd (word w ∷ is) = same_string w cd_word || has_cd is
has_cd (redirect ch filename ∷ is) = has_cd is

abbrev pub target : Channel → List ℕ → Redirect
target input filename = record {
  direction = reads;
  redirect_fd = some 0;
  new_fd = none;
  filename = some filename;
}
target output filename = record {
  direction = writes;
  redirect_fd = some 1;
  new_fd = none;
  filename = some filename;
}
target errors filename = record {
  direction = writes;
  redirect_fd = some 2;
  new_fd = none;
  filename = some filename;
}

-- the last redirection of the channel, of which `before` is what stands in front of the items
abbrev pub last_in : List Item → Option Redirect → Option Redirect
last_in [] before = before
last_in (redirect input filename ∷ is) before = last_in is (some (target input filename))
last_in (_ ∷ is) before = last_in is before

abbrev pub last_out : List Item → Option Redirect → Option Redirect
last_out [] before = before
last_out (redirect output filename ∷ is) before = last_out is (some (target output filename))
last_out (_ ∷ is) before = last_out is before

abbrev pub last_err : List Item → Option Redirect → Option Redirect
last_err [] before = before
last_err (redirect errors filename ∷ is) before = last_err is (some (target errors filename))
last_err (_ ∷ is) before = last_err is before

-- the items on top of what a command has
abbrev pub with_items : List Item → Command → Command
with_items is c = record c {
  argv = c.argv ++ words is;
  rd_count = c.rd_count + count_redirects is;
  rd_in = last_in is c.rd_in;
  rd_out = last_out is c.rd_out;
  rd_err = last_err is c.rd_err;
  cd = c.cd || has_cd is;
}

abbrev pub command_of : Simple → Command
command_of s = with_items (s.first ∷ s.others) command_alloc

-- the pipelines of a chain, of which the first has the index `i`,
abbrev pub pipes_of : Chain → (i : ℕ) (pipe_in : Option ℕ) → List Pipeline
pipes_of (one s) i pipe_in =
    record { command = command_of s; pipe_in = pipe_in; pipe_out = none; pipefd = (none, none) }
    ∷ []
pipes_of (pipe_to s ch) i pipe_in =
    record {
      command = command_of s;
      pipe_in = pipe_in;
      pipe_out = some (i + 1);
      pipefd = (none, none);
    }
    ∷ pipes_of ch (i + 1) (some i)

abbrev pub conds_of : AndOr → List Conditional
conds_of (only ch) = record { cond_argv = pipes_of ch 0 none; continue_if = 0 } ∷ []
conds_of (link ch either rest) =
    record { cond_argv = pipes_of ch 0 none; continue_if = if either then 1 else 0 } ∷ conds_of rest

-- and the lists of a line.
abbrev pub lists_of : Line → List CommandList
lists_of (final l none) = record { cargv = conds_of l; background = false } ∷ []
lists_of (final l (some background)) = record { cargv = conds_of l; background = background } ∷ []
lists_of (then_ l background rest) =
    record { cargv = conds_of l; background = background } ∷ lists_of rest
