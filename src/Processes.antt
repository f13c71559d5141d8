-- ===== src/Processes.antt =====
-- The process operations of subrepos/plano/src/plano/main.py: `kill`, `wait`, `stop` and `exit`.
-- Whether a process has ended, and how, is a parameter: `polled` for `proc.poll()` and `outcome` for
-- what `proc.wait(timeout)` leaves in `proc.exit_code`, where `none` is an expired timeout.
pub mod Effects
pub mod Results
use bsord.Base.{
  ℕ, zero, suc, true, false, ◌∷◌, [], List, str, ◌++◌, ◌&&◌, not, Option, none, some, Bool, Text,
  if◌then◌else◌, eqb,
}
use bsord.Base.Int.{ℤ, pos, negsuc}
use bsord.World.{
  Call, Exception, ExitCode, Message, Arg, shown, quoted, number, removed, terminated, pure, modify,
  or_raise, message, formatted, raised, raise, when, ◌>>=◌, ◌>>◌,
}
use bsord.Logging.{notice, error, debug, info_if, debug_if}
use bsord.Console.{print_to}

-- The argument of `exit`: nothing, a text with what is formatted into it, an exception, a number,
-- or something else.
pub data ExitArg : Type 0 where
  no_exit_arg : ExitArg
  exit_text : Message → ExitArg
  exit_exception : Exception → ExitArg
  exit_status : ℤ → ExitArg
  other_exit_arg : ExitArg

abbrev exit_normally : {A : Type 0} → Bool → Call A
exit_normally verbose = do
  when verbose (notice (message (str "Exiting normally") []))
  raise (Exception.system_exit ExitCode.no_code)

-- `exit(arg, verbose=verbose)`, with `str` of an exception as the parameter `text_of`.
unfoldable pub exit : {A : Type 0} → (Exception → Text) → ExitArg → Bool → Call A
exit text_of no_exit_arg verbose = exit_normally verbose
exit text_of (exit_text m) verbose = do
  when verbose (error (formatted m))
  raise (Exception.system_exit (ExitCode.complaint m))
exit text_of (exit_exception e) verbose = do
  when verbose (error (raised e))
  raise (Exception.system_exit (ExitCode.complaint (message (text_of e) [])))
exit text_of (exit_status (pos n)) verbose =
    if eqb n 0
    then exit_normally verbose
    else raise (Exception.system_exit (ExitCode.status (pos n)))
exit text_of (exit_status (negsuc n)) verbose =
    raise (Exception.system_exit (ExitCode.status (negsuc n)))
exit text_of other_exit_arg verbose =
    raise (Exception.plano_exception (message (str "Illegal argument") []))

pub record PlanoProcess : Type 0 where
  -- `str(proc)`
  pub description : Text
  -- `_format_command(proc.args, represent=False)`
  pub command : Text
  pub stash_file : Option Text

abbrev pub proc_arg : PlanoProcess → Arg
proc_arg proc = shown proc.description

abbrev pub is_positive : ℤ → Bool
is_positive (pos n) = not (eqb n 0)
is_positive (negsuc n) = false

-- The messages of `wait`.
unfoldable pub debug_exit : PlanoProcess → ℤ → Call (Unit {0})
debug_exit proc (pos n) =
    if eqb n 0
    then debug (message (str "{} exited normally") (proc_arg proc ∷ []))
    else debug (message (str "{} exited with code {}") (proc_arg proc ∷ number (pos n) ∷ []))
debug_exit proc (negsuc n) =
    debug
      (message (str "{} was terminated by signal {}") (proc_arg proc ∷ number (pos (suc n)) ∷ []))

-- `kill`
unfoldable pub kill : PlanoProcess → Bool → Call (Unit {0})
kill proc quiet = do
  info_if quiet (message (str "Killing {}") (proc_arg proc ∷ []))
  modify (λ w. record w { events = w.events ++ terminated proc.description ∷ [] })

module _ (exists : Text → Bool) (read : Text → Text) where
  -- `remove` of one path.
  unfoldable pub remove_path : Text → Bool → Call (Unit {0})
  remove_path path quiet =
      if exists path
      then (do
        debug_if quiet (message (str "Removing {}") (quoted path ∷ []))
        modify (λ w. record w { events = w.events ++ removed path ∷ [] }))
      else pure tt

  -- `eprint(read(file), end="")`
  unfoldable pub print_stash : Text → Call (Unit {0})
  unfolding print_to
  print_stash path w = print_to w.stderr (message (read path) []) w

  -- What `wait` does with the stash file, on a system other than Windows.
  unfoldable pub settle_stash : Option Text → ℤ → Call (Unit {0})
  unfolding print_stash remove_path
  settle_stash none exit_code = pure tt
  settle_stash (some path) exit_code = do
    when (is_positive exit_code) (print_stash path)
    remove_path path true

  -- `if check and proc.exit_code > 0: raise PlanoProcessError(proc)`
  abbrev pub check_exit : PlanoProcess → Bool → ℤ → Call ℤ
  check_exit proc check exit_code =
      if check && is_positive exit_code
      then raise (Exception.plano_process_error exit_code (message proc.command []))
      else pure exit_code

  -- The part of `wait` after the process has ended.
  abbrev pub after_exit : PlanoProcess → Bool → ℤ → Call ℤ
  after_exit proc check exit_code = do
    debug_exit proc exit_code
    settle_stash proc.stash_file exit_code
    check_exit proc check exit_code

  -- `wait`, which here returns the exit code in place of the process that has it.
  unfoldable pub wait : Option ℤ → PlanoProcess → Bool → Bool → Call ℤ
  unfolding debug_exit settle_stash
  wait outcome proc check quiet = do
    info_if quiet (message (str "Waiting for {} to exit") (proc_arg proc ∷ []))
    exit_code ← or_raise outcome (Exception.plano_timeout none)
    after_exit proc check exit_code

  -- `-(signal.SIGTERM)`
  abbrev pub is_sigterm : ℤ → Bool
  is_sigterm (pos n) = false
  is_sigterm (negsuc n) = eqb n 14

  -- The messages of `stop` for a process that has ended already.
  unfoldable pub debug_ended : PlanoProcess → ℤ → Call (Unit {0})
  debug_ended proc exit_code =
      if is_sigterm exit_code
      then debug (message (str "{} was already terminated") (proc_arg proc ∷ []))
      else elim exit_code [
        | pos zero ↦ debug (message (str "{} already exited normally") (proc_arg proc ∷ []))
        | code ↦
            debug
              (message (str "{} already exited with code {}") (proc_arg proc ∷ number code ∷ []))
      ]

  -- `stop`
  unfoldable pub stop : Option ℤ → Option ℤ → PlanoProcess → Bool → Call ℤ
  unfolding debug_ended kill wait
  stop polled outcome proc quiet = do
    info_if quiet (message (str "Stopping {}") (proc_arg proc ∷ []))
    (elim polled [
      | some exit_code ↦ debug_ended proc exit_code >> pure exit_code
      | none ↦ kill proc true >> wait outcome proc false true
    ])
