-- ===== src/TestRunner/Runs.antt =====
-- `_run_test` and the loops of `run_tests` of subrepos/plano/src/plano/test.py.
use bsord.Base.{
  ℕ, Bool, true, false, not, ◌&&◌, none, some, List, [], ◌∷◌, ◌++◌, Text, str, any, if◌then◌else◌,
}
use bsord.World.{
  World, Call, Result, ok, err, Exception, is_exception, quoted, message, pure, raise, when, ◌>>=◌,
  ◌>>◌,
}
use bsord.Logging.{warn, OutputArg}
use bsord.Console.{print, with_output_redirected}
use bsord.Files.Blocks.{with_temp_file}
use bsord.TestRunner.Tests.{Test, TestModule, TestRun, call_test}
use bsord.TestRunner.Reports.{report_start, report_skipped, report_failed, report_passed}
use bsord.TestRunner.Summary.{
  RunOptions, Selection, selection, new_run, blank, report_configuration, report_module, verdict,
}

abbrev pub add_test : Test → TestRun → TestRun
add_test test run = record run { tests = run.tests ++ test ∷ [] }

abbrev pub add_skipped : Test → TestRun → TestRun
add_skipped test run = record run { skipped_tests = run.skipped_tests ++ test ∷ [] }

abbrev pub add_failed : Test → TestRun → TestRun
add_failed test run = record run { failed_tests = run.failed_tests ++ test ∷ [] }

abbrev pub add_passed : Test → TestRun → TestRun
add_passed test run = record run { passed_tests = run.passed_tests ++ test ∷ [] }

-- The handlers of `_run_test`, which returns `True` for a failure with `fail_fast` and `None`,
-- here false, otherwise. What is no `Exception` is raised again.
unfoldable pub settle : Text → TestRun → Test → Result (Unit {0}) → Call (TestRun × Bool)
unfolding report_skipped report_failed report_passed
settle output_file run test (ok done) = report_passed run test >> pure (add_passed test run, false)
settle output_file run test (err Exception.keyboard_interrupt) = raise Exception.keyboard_interrupt
settle output_file run test (err (Exception.plano_test_skipped reason)) =
    report_skipped run test reason >> pure (add_skipped test run, false)
settle output_file run test (err e) =
    if is_exception e
    then report_failed run test e output_file >> pure (add_failed test run, run.fail_fast)
    else raise e

module _ (matches : Text → Text → Bool) where
  abbrev pub matches_any : List Text → Text → Bool
  matches_any ps name = any (λ pattern. matches name pattern) ps

  -- The tests that the loop does not pass over.
  abbrev pub is_chosen : Selection → Test → Bool
  is_chosen s test =
      not (test.disabled && not (matches_any s.enable test.name))
      && (matches_any s.include test.name && not (matches_any s.exclude test.name))

-- What `temp_file` makes the name of an output file of.
pub record TempFiles : Type 0 where
  pub system_temp_dir : Text
  pub user : Text
  pub temp_name : World → Text → Text

-- The `try` block of `_run_test`: the test under its time limit, with its output redirected
-- unless the run is verbose.
unfoldable pub attempt :
    (ℕ → Call (Unit {0}) → Call (Unit {0})) → Text → TestRun → Test → Bool → Call (Unit {0})
unfolding call_test with_output_redirected
attempt limit output_file run test unskipped =
    limit (elim test.timeout [ none ↦ run.test_timeout | some t ↦ t ])
      (if run.verbose
        then call_test test unskipped
        else with_output_redirected (OutputArg.path output_file) true (call_test test unskipped))

module _ (limit : ℕ → Call (Unit {0}) → Call (Unit {0})) (matches : Text → Text → Bool)
    (temps : TempFiles) where
  -- The block of `_run_test` that has an output file.
  unfoldable pub try_test : TestRun → Test → Bool → Text → Call (TestRun × Bool)
  unfolding attempt settle
  try_test run test unskipped output_file w =
      let (r, w') = attempt limit output_file run test unskipped w in
      settle output_file run test r w'

  -- `_run_test`
  unfoldable pub run_test : TestRun → Test → Bool → Call (TestRun × Bool)
  unfolding try_test report_start with_temp_file
  run_test run test unskipped =
      report_start run test
      >> with_temp_file temps.system_temp_dir temps.user temps.temp_name [] none
          (try_test run test unskipped)

  -- The body of the loop over a module's tests: what `_run_test` returns is not looked at.
  unfoldable pub run_chosen : Selection → TestRun → Test → Call TestRun
  unfolding run_test
  run_chosen s run test =
      if is_chosen matches s test
      then (do
        (run', stop) ← run_test (add_test test run) test (matches_any matches s.unskip test.name)
        pure run')
      else pure run

  unfoldable pub run_all : Selection → TestRun → List Test → Call TestRun
  unfolding run_chosen
  run_all s run [] = pure run
  run_all s run (test ∷ tests) = do run' ← run_chosen s run test; run_all s run' tests

  -- The loop over a module's tests, or the warning that it has none.
  unfoldable pub run_listed : RunOptions → Selection → TestRun → TestModule → Call TestRun
  run_listed o s run m = elim m.tests [
    | none ↦ warn (message (str "Module {} has no tests") (quoted m.name ∷ [])) >> pure run
    | some tests ↦ do
      run' ← run_all s run tests
      when (not o.verbose && not o.quiet) (print blank)
      pure run'
  ]

  unfoldable pub run_module : RunOptions → Selection → TestRun → TestModule → Call TestRun
  run_module o s run m = report_module o m >> run_listed o s run m

  unfoldable pub run_modules : RunOptions → Selection → TestRun → List TestModule → Call TestRun
  run_modules o s run [] = pure run
  run_modules o s run (m ∷ modules) = do run' ← run_module o s run m; run_modules o s run' modules

  unfoldable pub run_tests : List TestModule → RunOptions → Call (Unit {0})
  run_tests modules o = do
    report_configuration o modules
    run ← run_modules o (selection o) (new_run o) modules
    verdict o run
