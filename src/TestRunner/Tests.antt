-- ===== src/TestRunner/Tests.antt =====
-- Tests and the record of a run, of subrepos/plano/src/plano/test.py.
use bsord.Base.{ℕ, Bool, true, false, Option, List, [], ◌∷◌, Text, str}
use bsord.World.{Call, ok, err, Exception, ExitCode, Arg, message, raised, pure, raise, ◌>>◌}
use bsord.Logging.{error}

pub record Test : Type 0 where
  pub name : Text
  pub timeout : Option ℕ
  pub disabled : Bool
  pub function : Bool → Call (Unit {0})

-- `tests` is `none` for a module with no `_plano_tests`.
pub record TestModule : Type 0 where
  pub name : Text
  pub file : Text
  pub tests : Option (List Test)

-- `TestRun`
pub record TestRun : Type 0 where
  pub test_timeout : ℕ
  pub fail_fast : Bool
  pub verbose : Bool
  pub quiet : Bool
  pub tests : List Test
  pub skipped_tests : List Test
  pub failed_tests : List Test
  pub passed_tests : List Test

-- `str(e)` of the argument of a `SystemExit`, as a message's argument.
abbrev exit_arg : ExitCode → Arg
exit_arg ExitCode.no_code = Arg.shown (str "None")
exit_arg (ExitCode.status code) = Arg.number code
exit_arg (ExitCode.complaint m) = Arg.shown m.template

-- The handler of `Test.__call__`: a `SystemExit` becomes a `PlanoError`.
unfoldable pub exit_to_error : Exception → Call (Unit {0})
exit_to_error (Exception.system_exit code) = do
  error (raised (Exception.system_exit code))
  raise (Exception.plano_error (message (str "System exit with code {}") (exit_arg code ∷ [])))
exit_to_error e = raise e

-- `Test.__call__`
unfoldable pub call_test : Test → Bool → Call (Unit {0})
unfolding exit_to_error
call_test test unskipped w =
    let (r, w') = test.function unskipped w in
    elim r [ ok done ↦ (ok done, w') | err e ↦ exit_to_error e w' ]

-- `skip_test(reason)`, in a test function that is told whether it is unskipped.
unfoldable pub skip_test : Bool → Option Text → Call (Unit {0})
skip_test true reason = pure tt
skip_test false reason = raise (Exception.plano_test_skipped reason)
