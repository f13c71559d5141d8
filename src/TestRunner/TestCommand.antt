-- ===== src/TestRunner/TestCommand.antt =====
-- `PlanoTestCommand` and `print_tests` of subrepos/plano/src/plano/test.py. The default value of
-- `test_modules` is one list that all commands made without modules share. What the import
-- system gives for a name is the parameter `import_module`, with `none` for an `ImportError`.
use bsord.Base.{
  ℕ, zero, suc, Bool, true, ◌||◌, Option, none, some, List, [], ◌∷◌, ◌++◌, Text, str, if◌then◌else◌,
}
use bsord.Base.Int.{pos}
use bsord.World.{Call, Exception, message, shown, pure, raise, ◌>>◌}
use bsord.Console.{print}
use bsord.Listing.{patterns}
use bsord.Commands.Values.{list_value, int_value}
use bsord.Commands.{MainArgs, main}
use bsord.Commands.Parser.{Argument, single, any_number}
use bsord.Commands.Application.{base_arguments, switch, valued, suppress}
use bsord.TestRunner.Tests.{Test, TestModule}
use bsord.TestRunner.Summary.{RunOptions}
use bsord.TestRunner.Runs.{run_tests, TempFiles}

abbrev repeatable : List Text → Option Text → Text → Argument
repeatable names metavar help = record (valued names single help) {
  metavar = metavar;
  default = list_value [];
  appends = true;
}

abbrev counted : List Text → Text → ℕ → Text → Argument
counted names metavar default help = record (valued names single help) {
  metavar = some metavar;
  type = some (str "int");
  default = int_value (pos default);
}

-- The arguments of the parser of `PlanoTestCommand`.
unfoldable pub test_arguments : (ℕ → Text) → List Argument
unfolding base_arguments
test_arguments upper =
    let pattern = some (str "PATTERN") in
    base_arguments upper
    ++ (record (valued (str "include" ∷ []) any_number
          (str "Run tests with names matching PATTERN (default '*', all tests)")) {
            metavar = pattern;
            default = list_value (str "*" ∷ []);
          }
        ∷ repeatable (str "-e" ∷ str "--exclude" ∷ []) pattern
            (str "Do not run tests with names matching PATTERN (repeatable)")
        ∷ repeatable (str "-m" ∷ str "--module" ∷ []) none
            (str "Collect tests from MODULE (repeatable)")
        ∷ switch (str "-l" ∷ str "--list" ∷ []) (str "Print the test names and exit")
        ∷ repeatable (str "--enable" ∷ []) pattern suppress
        ∷ repeatable (str "--unskip" ∷ []) pattern
            (str "Run skipped tests matching PATTERN (repeatable)")
        ∷ counted (str "--timeout" ∷ []) (str "SECONDS") 300
            (str "Fail any test running longer than SECONDS (default 300)")
        ∷ switch (str "--fail-fast" ∷ [])
            (str "Exit on the first failure encountered in a test run")
        ∷ counted (str "--iterations" ∷ []) (str "COUNT") 1
            (str "Run the tests COUNT times (default 1)")
        ∷ [])

-- The parsed arguments, which `init` keeps.
pub record TestArgs : Type 0 where
  pub module_names : List Text
  pub list_only : Bool
  pub include : List Text
  pub exclude : List Text
  pub enable : List Text
  pub unskip : List Text
  pub timeout : ℕ
  pub fail_fast : Bool
  pub iterations : ℕ

-- `self.test_modules`: the default list, or one of the command's own.
pub data ModuleList : Type 0 where
  default_list : ModuleList
  own_list : List TestModule → ModuleList

pub record ModuleStore : Type 0 where
  -- What is in the default list.
  pub default_modules : List TestModule
  pub test_modules : ModuleList

-- The argument `test_modules`: a module stands for the list of itself.
pub data GivenModules : Type 0 where
  no_modules : GivenModules
  one_module : TestModule → GivenModules
  given_modules : List TestModule → GivenModules

-- `PlanoTestCommand.__init__`, for what is in the default list.
unfoldable pub new_test_command : List TestModule → GivenModules → ModuleStore
new_test_command default_modules given = record {
  default_modules = default_modules;
  test_modules = elim given [
    | no_modules ↦ default_list
    | one_module m ↦ own_list (m ∷ [])
    | given_modules ms ↦ own_list ms
  ];
}

abbrev pub modules_of : ModuleStore → List TestModule
modules_of store = elim store.test_modules [
  | default_list ↦ store.default_modules
  | own_list modules ↦ modules
]

-- `self.test_modules.append(module)`
unfoldable pub append_module : TestModule → ModuleStore → ModuleStore
append_module m store = elim store.test_modules [
  | default_list ↦ record store { default_modules = store.default_modules ++ m ∷ [] }
  | own_list modules ↦ record store { test_modules = own_list (modules ++ m ∷ []) }
]

-- The lines of `print_tests` for the tests of a module.
unfoldable pub print_each : Text → List Test → Call (Unit {0})
unfolding print
print_each module_name [] = pure tt
print_each module_name (test ∷ tests) =
    print (
      message (if test.disabled then str "test '{}:{}' (disabled)" else str "test '{}:{}'")
        (shown module_name ∷ shown test.name ∷ []))
    >> print_each module_name tests

-- `print_tests`
unfoldable pub print_tests : List TestModule → Call (Unit {0})
unfolding print_each
print_tests [] = pure tt
print_tests (m ∷ modules) = elim m.tests [
  | none ↦ raise (Exception.other (str "AttributeError"))
  | some tests ↦ print_each m.name tests >> print_tests modules
]

module _ (import_module : Text → Option TestModule) where
  -- The loop of `init`: the first name that cannot be imported, if there is one, and the modules then.
  unfoldable pub import_modules : List Text → ModuleStore → Option Text × ModuleStore
  unfolding append_module
  import_modules [] store = (none, store)
  import_modules (name ∷ names) store = elim (import_module name) [
    | none ↦ (some name, store)
    | some m ↦ import_modules names (append_module m store)
  ]

  module _ (import_error : Text → Text) where
    abbrev imported : Option Text × ModuleStore → Call ModuleStore
    imported (none, store) = pure store
    imported (some name, store) = raise (Exception.plano_error (message (import_error name) []))

    -- `init`
    unfoldable pub init_tests : TestArgs → ModuleStore → Call ModuleStore
    unfolding import_modules
    init_tests args store = imported (import_modules args.module_names store)

-- `for i in range(iterations)`
unfoldable pub repeat : ℕ → Call (Unit {0}) → Call (Unit {0})
repeat zero m = pure tt
repeat (suc n) m = m >> repeat n m

-- The arguments that `run` gives `run_tests`.
unfoldable pub run_options : MainArgs → TestArgs → RunOptions
run_options main_args args = record {
  include = patterns args.include;
  exclude = patterns args.exclude;
  enable = patterns args.enable;
  unskip = patterns args.unskip;
  test_timeout = args.timeout;
  fail_fast = args.fail_fast;
  verbose = main_args.verbose || main_args.debug;
  quiet = main_args.quiet;
}

module _ (limit : ℕ → Call (Unit {0}) → Call (Unit {0})) (matches : Text → Text → Bool)
    (temps : TempFiles) where
  -- `run`
  unfoldable pub run_command : MainArgs → TestArgs → List TestModule → Call (Unit {0})
  unfolding repeat run_tests print_tests run_options
  run_command main_args args modules =
      if args.list_only
      then print_tests modules
      else repeat args.iterations
          (run_tests limit matches temps modules (run_options main_args args))

  -- `PlanoTestCommand.main`, once the arguments are parsed.
  unfoldable pub main_tests :
      (Exception → Text)
      → (Text → Option TestModule)
      → (Text → Text)
      → MainArgs
      → TestArgs
      → ModuleStore
      → Call (Unit {0})
  unfolding main init_tests run_command
  main_tests text_of import_module import_error main_args args store =
      main text_of main_args (init_tests import_module import_error args store)
        (λ store'. run_command main_args args (modules_of store'))
