-- ===== src/TestRunner/Reports.antt =====
-- What subrepos/plano/src/plano/test.py prints and logs about each test.
pub mod Returning
use bsord.Base.{
  ℕ, Bool, true, false, not, ◌&&◌, Option, none, some, List, [], ◌∷◌, ◌++◌, Text, text_eq, str,
  if◌then◌else◌, ◌==◌,
}
use bsord.World.{
  World, Call, Exception, is_plano_timeout, Sink, Arg, shown, elapsed, traceback, number, Message,
  message, formatted, Event, printed, logged, opened, pure, when, gets, ◌>>=◌, ◌>>◌,
}
use bsord.Logging.{notice, error}
use bsord.Console.{print, print_to, cprint}
use bsord.FileSystem.{os_read}
use bsord.TestRunner.Tests.{Test, TestRun}

-- `str(test)`, of which the name is kept.
abbrev pub test_arg : Test → Arg
test_arg test = shown test.name

-- `if test_run.verbose: m elif not test_run.quiet: n`
abbrev pub by_mode : TestRun → Call (Unit {0}) → Call (Unit {0}) → Call (Unit {0})
by_mode run m n = if run.verbose then m else if run.quiet then pure tt else n

unfoldable pub print_test_result : Text → Text → Bool → Call (Unit {0})
unfolding cprint print
print_test_result status color bright = do
  cprint color bright (message (str "{:<7}") (shown status ∷ []))
  print (message (str "{:>6}") (elapsed ∷ []))

-- `_print_test_error`: the command's error, or the traceback line by line.
unfoldable pub print_test_error : Exception → Call (Unit {0})
unfolding cprint print
print_test_error (Exception.plano_process_error code m) = do
  cprint (str "yellow") false (message (str "--- Error ---") [])
  print (message (str "> {}") (number code ∷ shown m.template ∷ m.args))
print_test_error e = do
  cprint (str "yellow") false (message (str "--- Error ---") [])
  print (message (str "> {}") (traceback ∷ []))

-- What was printed to the file since it was last opened for writing. It is kept in the events, and
-- not in the node of the file.
unfoldable pub captured : Text → List Message → List Event → List Message
captured path lines [] = lines
captured path lines (opened p ∷ events) = captured path (if p == path then [] else lines) events
captured path lines (printed (Sink.file p) m ∷ events) =
    captured path (if p == path then lines ++ m ∷ [] else lines) events
captured path lines (event ∷ events) = captured path lines events

unfoldable pub print_each : List Message → Call (Unit {0})
unfolding print
print_each [] = pure tt
print_each (m ∷ ms) = print (message (str "> {}") (shown m.template ∷ m.args)) >> print_each ms

unfoldable pub print_captured : List Message → Call (Unit {0})
unfolding cprint print_each
print_captured [] = pure tt
print_captured (m ∷ ms) =
    cprint (str "yellow") false (message (str "--- Output ---") []) >> print_each (m ∷ ms)

-- `_print_test_output`, which prints nothing for an empty file, and raises if it cannot be read.
unfoldable pub print_test_output : Text → Call (Unit {0})
unfolding print_captured captured os_read
print_test_output path = os_read path >> λ w. print_captured (captured path [] w.events) w

unfoldable pub report_start : TestRun → Test → Call (Unit {0})
unfolding print
report_start run test =
    by_mode run (notice (message (str "Running {}") (test_arg test ∷ [])))
      (print (message (str "{:.<65} ") (test_arg test ∷ [])))

unfoldable pub report_skipped : TestRun → Test → Option Text → Call (Unit {0})
unfolding print_test_result print
report_skipped run test reason =
    by_mode run (notice (message (str "{} SKIPPED ({})") (test_arg test ∷ elapsed ∷ []))) (do
      print_test_result (str "SKIPPED") (str "yellow") false
      print (
          message (str "Reason: {}") (shown (elim reason [ none ↦ str "None" | some r ↦ r ]) ∷ [])))

abbrev pub failed_status : Exception → Text
failed_status e = if is_plano_timeout e then str "**FAILED** (TIMEOUT)" else str "**FAILED**"

abbrev failed_notice : Exception → Text
failed_notice e =
    if is_plano_timeout e then str "{} **FAILED** (TIMEOUT) ({})" else str "{} **FAILED** ({})"

-- `traceback.print_exc()`
unfoldable pub print_exc : Call (Unit {0})
unfolding print_to
print_exc w = print_to w.stderr (message (str "{}") (traceback ∷ [])) w

unfoldable pub report_failed : TestRun → Test → Exception → Text → Call (Unit {0})
unfolding print_test_result print_test_error print_test_output print_exc
report_failed run test e output_file =
    by_mode run
      (print_exc >> error (formatted (message (failed_notice e) (test_arg test ∷ elapsed ∷ []))))
      (do
        print_test_result (failed_status e) (str "red") true
        print_test_error e
        print_test_output output_file)

unfoldable pub report_passed : TestRun → Test → Call (Unit {0})
unfolding print_test_result
report_passed run test =
    by_mode run (notice (message (str "{} PASSED ({})") (test_arg test ∷ elapsed ∷ [])))
      (print_test_result (str "PASSED") (str "white") false)
