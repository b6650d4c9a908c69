-- ===== src/Shell/Commands.antt =====
-- pset4/sh61.c: the structures of a command line.
-- A count and the array that `realloc` grows with it are one list here. -1 for a descriptor or a
-- process, and NULL, are `none`; a pipeline that another one points to is its index in the
-- `cond_argv` of both.
use cs61_psets.Common.{ℕ, Bool, true, false, Option, none, List, [], ◌∷◌, ◌++◌}
use cs61_psets.Shell.Token.{TokenType}

-- What `parse_shell_token` gives: the type and the string.
pub record Token : Type 0 where
  pub type_ : TokenType
  pub text : List ℕ

-- the numbers 0, -1 and 1 of `direction`
pub data Direction : Type 0 where
  unset reads writes : Direction

pub record Redirect : Type 0 where
  pub direction : Direction
  pub redirect_fd : Option ℕ
  pub new_fd : Option ℕ
  pub filename : Option (List ℕ)

pub record Command : Type 0 where
  pub argv : List (List ℕ)
  pub pid : Option ℕ
  pub status : ℕ
  pub wait : Bool
  pub fd_in : Option ℕ
  pub fd_out : Option ℕ
  pub rd_count : ℕ
  pub rd_in : Option Redirect
  pub rd_out : Option Redirect
  pub rd_err : Option Redirect
  pub cd : Bool

pub record Pipeline : Type 0 where
  pub command : Command
  pub pipe_in : Option ℕ
  pub pipe_out : Option ℕ
  pub pipefd : Option ℕ × Option ℕ

pub record Conditional : Type 0 where
  pub cond_argv : List Pipeline
  pub continue_if : ℕ

pub record CommandList : Type 0 where
  pub cargv : List Conditional
  pub background : Bool

abbrev pub rd_alloc : Redirect
rd_alloc = record { direction = unset; redirect_fd = none; new_fd = none; filename = none }

abbrev pub command_alloc : Command
command_alloc = record {
  argv = [];
  pid = none;
  status = 0;
  wait = true;
  fd_in = none;
  fd_out = none;
  rd_count = 0;
  rd_in = none;
  rd_out = none;
  rd_err = none;
  cd = false;
}

abbrev pub command_append_arg : Command → List ℕ → Command
command_append_arg c word = record c { argv = c.argv ++ (word ∷ []) }

-- `pipeline_alloc` with `set_pipe_command` of a new command, which follows it everywhere
abbrev pub pipeline_alloc : Pipeline
pipeline_alloc = record {
  command = command_alloc;
  pipe_in = none;
  pipe_out = none;
  pipefd = (none, none);
}

abbrev pub conditional_alloc : Conditional
conditional_alloc = record { cond_argv = []; continue_if = 0 }

abbrev pub conditional_append_arg : Conditional → Pipeline → Conditional
conditional_append_arg cond pipe = record cond { cond_argv = cond.cond_argv ++ (pipe ∷ []) }

abbrev pub command_list_alloc : CommandList
command_list_alloc = record { cargv = []; background = false }

abbrev pub command_list_append_arg : CommandList → Conditional → CommandList
command_list_append_arg list cond = record list { cargv = list.cargv ++ (cond ∷ []) }

abbrev pub list_group_append_lst : List CommandList → CommandList → List CommandList
list_group_append_lst group list = group ++ (list ∷ [])
