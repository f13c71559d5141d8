-- ===== src/World/Exceptions.antt =====
-- The exception classes of subrepos/plano/src/plano/main.py and test.py, and the built-in ones that
-- the code raises, catches or lets through.
use bsord.Base.{ℕ, Bool, true, false, Option, List, Text}
use bsord.Base.Int.{ℤ}

pub data Sink : Type 0 where
  console_out console_err : Sink
  file : Text → Sink

-- An argument of a message: `x`, `repr(x)` of a string, a number, an open stream, a
-- number of seconds as `format_duration` writes it, the time that a timer has measured, the
-- traceback of the exception that is being handled, or `repr(x)` of each of some strings.
pub data Arg : Type 0 where
  shown : Text → Arg
  quoted : Text → Arg
  all_quoted : List Text → Arg
  number : ℤ → Arg
  stream : Sink → Arg
  duration : ℕ → Arg
  elapsed : Arg
  traceback : Arg

-- `template.format(*args)`, kept unrendered.
pub record Message : Type 0 where
  pub template : Text
  pub args : List Arg

-- The argument of `sys.exit`.
pub data ExitCode : Type 0 where
  no_code : ExitCode
  status : ℤ → ExitCode
  complaint : Message → ExitCode

pub data Exception : Type 0 where
  plano_exception : Message → Exception
  plano_error : Message → Exception
  plano_timeout : Option Text → Exception
  plano_process_error : ℤ → Message → Exception
  plano_test_skipped : Option Text → Exception
  keyboard_interrupt : Exception
  system_exit : ExitCode → Exception
  assertion_error : Message → Exception
  key_error : Text → Exception
  index_error : Exception
  value_error : Exception
  type_error : Exception
  unbound_local_error : Exception
  os_error : Text → Exception
  other : Text → Exception

-- `isinstance(e, PlanoError)`: a `PlanoProcessError` is one too.
abbrev pub is_plano_error : Exception → Bool
is_plano_error (plano_error m) = true
is_plano_error (plano_process_error c m) = true
is_plano_error _ = false

-- `isinstance(e, PlanoTimeout)`, which is no `PlanoError`.
abbrev pub is_plano_timeout : Exception → Bool
is_plano_timeout (plano_timeout m) = true
is_plano_timeout _ = false

-- `isinstance(e, Exception)`
abbrev pub is_exception : Exception → Bool
is_exception keyboard_interrupt = false
is_exception (system_exit c) = false
is_exception _ = true
