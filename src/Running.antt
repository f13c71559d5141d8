-- ===== src/Running.antt =====
-- `start`, `run`, `call` and the handler of SIGTERM of subrepos/plano/src/plano/main.py.
-- The record `System` holds what is not the program's: `shlex_split` is `shlex.split`, with `none`
-- for its `ValueError`; `popen` is the constructor of `subprocess.Popen`; `communicate` is what
-- `proc.communicate` gives, where the process may change the state; `outcome` is how the process
-- ends, with `none` for an expired time limit; the last three are as for `make_temp_file`.
pub mod Http
pub mod Archives
pub mod Outcomes
pub mod Calls
use bsord.Base.{
  Bool, true, false, not, Option, none, some, List, [], ◌∷◌, ◌++◌, Text, str, map, join_texts,
  if◌then◌else◌, inl, inr, ◌⊎◌,
}
use bsord.Base.Int.{ℤ, negsuc}
use bsord.World.{
  World, Call, Exception, Sink, file, message, shown, quoted, terminated, pure, raise, gets, when,
  or_raise, assert, ◌>>=◌, ◌>>◌,
}
use bsord.Logging.{info_if, debug}
use bsord.Paths.{expand}
use bsord.FileSystem.{os_read, os_write, stat}
use bsord.FileSystem.Writing.{contents}
use bsord.Files.{exists}
use bsord.Files.Blocks.{make_temp_file}
use bsord.Processes.{PlanoProcess, proc_arg, kill, wait, exit, exit_status}

-- A command is a text or a list of arguments.
pub data ProcessCommand : Type 0 where
  command_text : Text → ProcessCommand
  command_args : List Text → ProcessCommand

-- What `stdin`, `stdout`, `stderr` and `output` may be: `None`, `PIPE`, a path or an open stream.
pub data StreamArg : Type 0 where
  no_stream pipe : StreamArg
  stream_path : Text → StreamArg
  stream_of : Sink → StreamArg

-- What a process reads from or writes to.
pub data Stream : Type 0 where
  standard_input piped : Stream
  input_from : Text → Stream
  output_to : Sink → Stream

-- What a process is started with.
pub record Options : Type 0 where
  pub stdin : Stream
  pub stdout : Stream
  pub stderr : Stream
  pub shell : Bool
  pub stash_file : Option Text

-- `args` of `Popen`: one text for a shell, or a list.
pub data Program : Type 0 where
  shell_text : Text → Program
  program_args : List Text → Program

abbrev pub open_input : StreamArg → Call Stream
open_input no_stream = pure standard_input
open_input pipe = pure piped
open_input (stream_of sink) = pure (output_to sink)
open_input (stream_path path) =
    gets (λ w. expand w path) >>= λ path. os_read path >> pure (input_from path)

abbrev pub open_output : (World → Sink) → StreamArg → Call Stream
open_output default no_stream = gets (λ w. output_to (default w))
open_output default pipe = pure piped
open_output default (stream_of sink) = pure (output_to sink)
open_output default (stream_path path) =
    gets (λ w. expand w path) >>= λ path. os_write path (λ old. []) >> pure (output_to (file path))

-- `if output is not None: stdout, stderr = output, output`
abbrev pub override : StreamArg → StreamArg → StreamArg
override no_stream given = given
override output given = output

abbrev pub with_stash : Option Text → Stream → Stream
with_stash none stream = stream
with_stash (some path) stream = output_to (file path)

-- `stdin=stdin` of `run`, which is a pipe if there is an input.
abbrev pub input_stream : Option Text → StreamArg → StreamArg
input_stream none stdin = stdin
input_stream (some input) stdin = pipe

-- `assert stdin in (None, _subprocess.PIPE), stdin`
abbrev pub can_pipe : Option Text → StreamArg → Bool
can_pipe none stdin = true
can_pipe (some input) no_stream = true
can_pipe (some input) pipe = true
can_pipe (some input) stdin = false

-- What the operating system and the libraries do for a process.
pub record System : Type 0 where
  pub shlex_split : Text → Option (List Text)
  -- A process, or the text of an `OSError`.
  pub popen : Program → Options → World → Text ⊎ PlanoProcess
  pub communicate : PlanoProcess → Option Text → World → (Option Text × Option Text) × World
  pub outcome : PlanoProcess → Option ℤ
  pub system_temp_dir : Text
  pub user : Text
  pub temp_name : World → Text → Text

module _ (sys : System) where
  -- `shlex.split(command)` of a text, and a list as it is.
  abbrev pub command_list : ProcessCommand → Option (List Text)
  command_list (command_text text) = sys.shlex_split text
  command_list (command_args args) = some args

  abbrev pub joined : World → List Text → Text
  joined w args = join_texts (str " ") (map (expand w) args)

  -- `_format_command(command, represent=False)`; messages quote it.
  unfoldable pub format_command : ProcessCommand → Call Text
  unfolding join_texts
  format_command command =
      or_raise (command_list command) Exception.value_error >>= λ args. gets (λ w. joined w args)

  -- The `args` of `start`.
  abbrev pub program : Bool → ProcessCommand → Call Program
  program true (command_text text) = pure (shell_text text)
  program true (command_args args) = pure (shell_text (join_texts (str " ") args))
  program false command = or_raise (command_list command) Exception.value_error >>= λ args.
      gets (λ w. program_args (map (expand w) args))

  abbrev pub stash_path : Bool → Call (Option Text)
  stash_path false = pure none
  stash_path true = do
    path ← make_temp_file sys.system_temp_dir sys.user sys.temp_name [] none
    os_write path (λ old. [])
    pure (some path)

  -- What `start` makes of the constructor's result.
  abbrev pub started : Text → Text ⊎ PlanoProcess → Call PlanoProcess
  started command (inl text) =
      raise
        (Exception.plano_error (message (str "Command {}: {}") (quoted command ∷ shown text ∷ [])))
  started command (inr proc) = debug (message (str "{} started") (proc_arg proc ∷ [])) >> pure proc

  -- `start`
  unfoldable pub start :
      ProcessCommand
      → StreamArg
      → StreamArg
      → StreamArg
      → StreamArg
      → Bool
      → Bool
      → Bool
      → Call PlanoProcess
  unfolding format_command os_read os_write make_temp_file
  start command stdin stdout stderr output shell stash quiet = do
    formatted ← format_command command
    info_if quiet (message (str "Starting command {}") (quoted formatted ∷ []))
    in_stream ← open_input stdin
    out_stream ← open_output (λ w. w.stdout) (override output stdout)
    err_stream ← open_output (λ w. w.stderr) (override output stderr)
    stash_file ← stash_path stash
    args ← program shell command
    made ← gets (
        sys.popen args (record {
          stdin = in_stream;
          stdout = with_stash stash_file out_stream;
          stderr = with_stash stash_file err_stream;
          shell = shell;
          stash_file = stash_file;
        }))
    started formatted made

  -- `wait(proc, check=check, quiet=True)`
  unfoldable pub wait_for : PlanoProcess → Bool → Call ℤ
  unfolding wait exists
  wait_for proc check w =
      wait (exists w) (λ path. contents (stat w path)) (sys.outcome proc) proc check true w

  -- `run`, which here returns the standard output and the standard error that were piped.
  unfoldable pub run :
      ProcessCommand
      → StreamArg
      → StreamArg
      → StreamArg
      → Option Text
      → StreamArg
      → Bool
      → Bool
      → Bool
      → Bool
      → Call (Option Text × Option Text)
  unfolding format_command start wait_for
  run command stdin stdout stderr input output stash shell check quiet = do
    formatted ← format_command command
    info_if quiet (message (str "Running command {}") (quoted formatted ∷ []))
    assert (can_pipe input stdin) (message [] [])
    proc ← start command (input_stream input stdin) stdout stderr output shell stash true
    results ← λ w. pure (sys.communicate proc input w).0 (sys.communicate proc input w).1
    wait_for proc check
    pure results

  -- `call`
  unfoldable pub call : ProcessCommand → Option Text → Bool → Bool → Call (Option Text)
  unfolding format_command run
  call command input shell quiet = do
    formatted ← format_command command
    info_if quiet (message (str "Calling {}") (quoted formatted ∷ []))
    results ← run command pipe pipe pipe input no_stream false shell true true
    pure results.0

-- The loop of `_default_sigterm_handler` over the processes that were started, of which `ended`
-- tells whether `poll` finds them to have ended.
unfoldable pub kill_children : (PlanoProcess → Bool) → List PlanoProcess → Call (Unit {0})
unfolding kill
kill_children ended [] = pure tt
kill_children ended (proc ∷ procs) =
    when (not (ended proc)) (kill proc true) >> kill_children ended procs

-- `_default_sigterm_handler`
unfoldable pub sigterm_handler :
    {A : Type 0} → (Exception → Text) → (PlanoProcess → Bool) → List PlanoProcess → Call A
unfolding kill_children exit
sigterm_handler text_of ended procs =
    kill_children ended procs >> exit text_of (exit_status (negsuc 14)) false
