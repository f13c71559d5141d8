-- ===== src/Examples/TestRuns.antt =====
-- A run of three tests of subrepos/plano/src/plano/test.py: one passes, one exits the process, which
-- fails it, and one is skipped. The second failure is reported although `fail_fast` is set.
use bsord.Base.{
  ℕ, ◌≡◌, ◌↔◌, refl, Bool, true, false, none, some, [], ◌∷◌, Text, str, text_eq, location_eq,
}
use bsord.Base.Int.{pos}
use bsord.World.{
  World, Call, directory, console_out, console_err, ok, err, Exception, ExitCode, pure, raise,
  message, number, shown,
}
use bsord.Strings.{starts_with}
use bsord.Logging.{info_if, debug_if}
use bsord.Listing.{pattern_text, patterns}
use bsord.TestRunner.{
  Test, TestModule, RunOptions, selection, run_modules, run_tests, skip_test, run_all, run_module,
  run_listed, verdict, report_module, report_configuration,
}
use bsord.TestRunner.Runs.{TempFiles}
use bsord.TestRunner.Expectations.{
  an_error, is_instance, with_expected, Mentions, with_expected_iff,
}

abbrev start : World
start = record {
  threshold = 5;
  log_output = none;
  stdout = console_out;
  stderr = console_err;
  is_tty = λ s. false;
  environ = [];
  sys_path = [];
  expansion = λ env path. path;
  current_dir = str "/home";
  files = (str "tmp" ∷ [], directory) ∷ [];
  can_open = λ path. true;
  running_commands = [];
  events = [];
}

abbrev passing : Test
passing = record { name = str "a"; timeout = none; disabled = false; function = λ u. pure tt }

abbrev exiting : Test
exiting = record {
  name = str "b";
  timeout = some 1;
  disabled = false;
  function = λ u. raise (Exception.system_exit (ExitCode.status (pos 3)));
}

abbrev skipping : Test
skipping = record {
  name = str "c";
  timeout = none;
  disabled = false;
  function = λ u. skip_test u none;
}

abbrev disabled : Test
disabled = record { name = str "d"; timeout = none; disabled = true; function = λ u. pure tt }

abbrev suite : TestModule
suite = record {
  name = str "suite";
  file = str "suite.py";
  tests = some (exiting ∷ passing ∷ exiting ∷ skipping ∷ disabled ∷ []);
}

abbrev options : RunOptions
options = record {
  include = pattern_text (str "*");
  exclude = patterns [];
  enable = patterns [];
  unskip = patterns [];
  test_timeout = 300;
  fail_fast = true;
  verbose = false;
  quiet = true;
}

-- No test runs out of time, and every name matches.
abbrev unlimited : ℕ → Call (Unit {0}) → Call (Unit {0})
unlimited seconds call = call

abbrev anything : Text → Text → Bool
anything name pattern = true

abbrev temps : TempFiles
temps = record { system_temp_dir = str "/tmp"; user = str "me"; temp_name = λ w suffix. str "x" }

four_tests :
    (run_tests unlimited anything temps (suite ∷ []) options start).0
    ≡ err (
        Exception.plano_error (
          message
            (str "{} {} failed ({} skipped)")
            (number (pos 2) ∷ shown (str "tests") ∷ number (pos 1) ∷ [])))
unfolding run_tests run_modules run_module run_listed run_all selection verdict text_eq skip_test
    report_module report_configuration info_if starts_with location_eq debug_if
four_tests = refl

abbrev boom_text : Exception → Text
boom_text e = str "a boom"

abbrev failing : Call (Unit {0})
failing = raise (Exception.plano_error (message (str "a boom") []))

with_expected_iff_example :
    ((with_expected boom_text an_error (some (str "boom")) failing start).0 ≡ ok tt) ↔ (
      (e : Exception) × ((failing start).0 ≡ err e)
      × (is_instance an_error e ≡ true)
      × Mentions (some (str "boom")) (boom_text e))
with_expected_iff_example = with_expected_iff boom_text an_error (some (str "boom")) failing start
