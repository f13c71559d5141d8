-- ===== src/Examples/ProgramRuns.antt =====
-- The theorems on the programs `plano` and `plano-test`, of subrepos/plano/src/plano/command.py and test.py, at
-- concrete inputs.
use bsord.Base.{
  ℕ, ◌≡◌, refl, Bool, true, false, Option, none, some, List, [], ◌∷◌, Text, str, text_eq, nat_eq,
  arith, join_texts, if◌then◌else◌, ◌==◌,
}
use bsord.World.{World, Call, ok, Exception, console_out, console_err, pure}
use bsord.Logging.{enter_logging, no_output}
use bsord.Commands.{Command, Value, MainArgs, main_level, Namespace, bind_commands}
use bsord.Commands.Endings
use bsord.Commands.Application.{ArgumentParser, ParsedArgs, PreArgs, main_application}
use bsord.Commands.Selected.{over_module, call_all, main_application-selected}
use bsord.Base.{location_eq}
use bsord.World.{directory, regular}
use bsord.Strings.{starts_with, ends_with}
use bsord.Paths.{split_path, normpath}
use bsord.Logging.{debug_if}
use bsord.Files.Contents.{read, write}
use bsord.Files.Blocks.{make_temp_file, remove_temp}
use bsord.TestRunner.Expectations.{occurs_in}
use bsord.TestRunner.Outputs.{ExpectedOutput, with_expected_output, with_expected_output-decides}
use bsord.TestRunner.{Test, TestModule}
use bsord.TestRunner.TestCommand.{
  TestArgs, ModuleStore, default_list, no_modules, modules_of, import_modules, new_test_command,
}
use bsord.TestRunner.Runs.{TempFiles}
use bsord.TestRunner.Program.{import_modules-appends}

abbrev start : World
start = record {
  threshold = 2;
  log_output = none;
  stdout = console_out;
  stderr = console_err;
  is_tty = λ s. false;
  environ = [];
  sys_path = [];
  expansion = λ env path. path;
  current_dir = str "/home";
  files = [];
  can_open = λ path. true;
  running_commands = [];
  events = [];
}

abbrev quiet_command : ℕ → Text → Command
quiet_command id name = record {
  id = id;
  module_name = str "m";
  name = name;
  parameters = [];
  passthrough = false;
  hidden = false;
  function = λ args kwargs. pure tt;
}

abbrev clean : Command
clean = quiet_command 0 (str "clean")

abbrev build : Command
build = quiet_command 1 (str "build")

abbrev variables : List (Option Command)
variables = some clean ∷ some build ∷ []

abbrev main_args : MainArgs
main_args = record { verbose = false; quiet = true; debug = false; init_only = false }

-- `build`, with no options.
abbrev namespace : Namespace
namespace = record {
  help = false;
  command = some (str "build");
  value = λ name. Value.none_value;
  values = λ name. [];
}

abbrev parsed : ParsedArgs
parsed = record { main_args = main_args; namespace = namespace; passthrough_args = [] }

abbrev pre : PreArgs
pre = record { file = none; module_name = none; command = some (str "clean,build") }

abbrev parser : ArgumentParser
parser = record {
  parse_pre = λ arguments args. pure pre;
  parse_known = λ arguments subparsers args. pure parsed;
  parser_error = λ m. pure tt;
  print_help = pure tt;
}

abbrev no_text : Exception → Text
no_text e = []

abbrev no_texts : Command → Option Text × Option Text
no_texts command = (none, none)

abbrev no_module : Text → Call (List (Option Command))
no_module path = pure []

main_application-selected_example :
    let inside = (enter_logging (main_level main_args) no_output start).1 in
    let (r, w') =
      main_application parser no_text
        (λ c. c ∷ [])
        (λ v. [])
        no_texts
        no_module
        (λ name. none)
        2
        (over_module variables)
        (str "clean,build" ∷ [])
        start in
    (r
      ≡ Endings.ending no_text main_args
          (call_all parser 2 (bind_commands variables []) (clean ∷ []) namespace [] build inside).0)
    × (w'.threshold ≡ 2)
unfolding join_texts text_eq nat_eq
main_application-selected_example =
    main_application-selected parser no_text (λ c. c ∷ []) (λ v. []) no_texts no_module
      (λ name. none) 2 variables none none (str "clean") (str "build") [] [] [] (clean ∷ []) build
      parsed start start start refl (refl, tt) refl refl refl refl refl refl refl refl refl
      (omega arith)

abbrev passing : Test
passing = record {
  name = str "pass";
  timeout = none;
  disabled = false;
  function = λ unskipped. pure tt;
}

abbrev suite : TestModule
suite = record { name = str "suite"; file = str "suite.py"; tests = some (passing ∷ []) }

abbrev import_suite : Text → Option TestModule
import_suite name = if name == str "suite" then some suite else none

abbrev test_args : TestArgs
test_args = record {
  module_names = str "suite" ∷ [];
  list_only = false;
  include = str "*" ∷ [];
  exclude = [];
  enable = [];
  unskip = [];
  timeout = 300;
  fail_fast = false;
  iterations = 2;
}

abbrev empty_store : ModuleStore
empty_store = record { default_modules = []; test_modules = default_list }

abbrev suite_store : ModuleStore
suite_store = record { default_modules = suite ∷ []; test_modules = default_list }

abbrev unlimited : ℕ → Call (Unit {0}) → Call (Unit {0})
unlimited seconds call = call

abbrev anything : Text → Text → Bool
anything name pattern = true

abbrev temps : TempFiles
temps = record { system_temp_dir = str "/tmp"; user = str "me"; temp_name = λ w suffix. str "x" }

import_modules-appends_example :
    let names = str "suite" ∷ str "other" ∷ [] in
    let (missing, store') = import_modules import_suite names suite_store in
    (missing ≡ some (str "other"))
    × (modules_of store' ≡ suite ∷ suite ∷ [])
    × (default_list ≡ default_list
        → modules_of (new_test_command store'.default_modules no_modules) ≡ modules_of store')
unfolding text_eq
import_modules-appends_example =
    import_modules-appends import_suite (str "suite" ∷ str "other" ∷ []) suite_store

abbrev temp_root : World
temp_root = record start { files = (str "tmp" ∷ [], directory) ∷ [] }

abbrev with_temp : Text → World
with_temp t = record start {
  files = (str "tmp" ∷ [], directory) ∷ (str "tmp" ∷ str "plano-x" ∷ [], regular t) ∷ [];
}

abbrev temp_name : World → Text → Text
temp_name w suffix = str "x"

abbrev expecting_hello : ExpectedOutput
expecting_hello = record {
  equals = none;
  contained = some (str "ell");
  prefix = some (str "he");
  suffix = none;
}

abbrev write_hello : Text → Call Text
write_hello path = write path (str "hello")

with_expected_output-decides_example :
    with_expected_output expecting_hello (str "/tmp") (str "me") temp_name write_hello temp_root
    ≡ (ok (str "/tmp/plano-x"), temp_root)
unfolding occurs_in starts_with ends_with text_eq nat_eq read write make_temp_file remove_temp
    location_eq split_path normpath debug_if
with_expected_output-decides_example =
    with_expected_output-decides expecting_hello (str "/tmp") (str "me") temp_name write_hello
      (str "/tmp/plano-x") (str "hello") (ok (str "/tmp/plano-x")) temp_root (with_temp [])
      (with_temp (str "hello")) temp_root refl refl refl refl
