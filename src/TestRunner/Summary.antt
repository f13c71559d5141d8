-- ===== src/TestRunner/Summary.antt =====
-- What `run_tests` of subrepos/plano/src/plano/test.py makes of its arguments, and what it prints and
-- logs about a run as a whole: its configuration, its modules, its summary and its result.
use bsord.Base.{
  ℕ, Bool, true, false, none, some, List, [], ◌∷◌, ◌++◌, Text, str, map, length, eqb, if◌then◌else◌,
}
use bsord.Base.Int.{pos}
use bsord.World.{
  Call, Exception, Arg, shown, number, quoted, duration, Message, message, formatted, pure, raise,
  ◌>>◌,
}
use bsord.Logging.{notice, error}
use bsord.Console.{print, cprint, print_properties}
use bsord.Strings.{plural}
use bsord.Base.{join_texts}
use bsord.Listing.{Patterns, pattern_text, patterns, pattern_list}
use bsord.TestRunner.Tests.{Test, TestModule, TestRun}

-- The arguments of `run_tests`.
pub record RunOptions : Type 0 where
  pub include : Patterns
  pub exclude : Patterns
  pub enable : Patterns
  pub unskip : Patterns
  pub test_timeout : ℕ
  pub fail_fast : Bool
  pub verbose : Bool
  pub quiet : Bool

-- The patterns that the loop goes through.
pub record Selection : Type 0 where
  pub include : List Text
  pub exclude : List Text
  pub enable : List Text
  pub unskip : List Text

-- A loop over a string goes through its characters.
abbrev iterated : Patterns → List Text
iterated (pattern_text p) = map (λ c. c ∷ []) p
iterated (patterns ps) = ps

-- The conversions of a single pattern to a tuple. The one for `unskip` sets `enable`.
unfoldable pub selection : RunOptions → Selection
selection o = record {
  include = pattern_list o.include;
  exclude = pattern_list o.exclude;
  enable = elim o.unskip [ pattern_text p ↦ p ∷ [] | patterns ps ↦ pattern_list o.enable ];
  unskip = iterated o.unskip;
}

abbrev pub new_run : RunOptions → TestRun
new_run o = record {
  test_timeout = o.test_timeout;
  fail_fast = o.fail_fast;
  verbose = o.verbose;
  quiet = o.quiet;
  tests = [];
  skipped_tests = [];
  failed_tests = [];
  passed_tests = [];
}

abbrev pub total_of : TestRun → ℕ
total_of run = length run.tests

abbrev pub skipped_of : TestRun → ℕ
skipped_of run = length run.skipped_tests

abbrev pub failed_of : TestRun → ℕ
failed_of run = length run.failed_tests

abbrev pub number_arg : ℕ → Arg
number_arg n = number (pos n)

-- `result_message`, where the text in brackets is left out if no test was skipped.
unfoldable pub result_message : TestRun → Message
unfolding plural
result_message run =
    let skipped = skipped_of run in
    let failed = failed_of run in
    let tests = shown (plural (some (str "test")) failed none) in
    if eqb failed 0
    then (if eqb skipped 0
        then message (str "All tests passed") []
        else message (str "All tests passed ({} skipped)") (number_arg skipped ∷ []))
    else if eqb skipped 0
    then message (str "{} {} failed") (number_arg failed ∷ tests ∷ [])
    else message (str "{} {} failed ({} skipped)")
        (number_arg failed ∷ tests ∷ number_arg skipped ∷ [])

abbrev pub names_of : List Test → Text
names_of tests = join_texts (str ", ") (map (λ test. test.name) tests)

-- `format_not_empty(", ".join(names), "({})")`
abbrev pub in_brackets : Text → Text
in_brackets [] = []
in_brackets (c ∷ s) = str "(" ++ ((c ∷ s) ++ str ")")

abbrev pub names_arg : List Test → Arg
names_arg tests = shown (in_brackets (names_of tests))

-- `format_empty(text, "[none]")`
abbrev pub or_none : Text → Text
or_none [] = str "[none]"
or_none (c ∷ s) = c ∷ s

abbrev pub modules_prop : List TestModule → Text × List Arg
modules_prop modules =
    (str "Modules", shown (or_none (join_texts (str ", ") (map (λ m. m.name) modules))) ∷ [])

abbrev pub configuration_props : RunOptions → List (Text × List Arg)
configuration_props o =
    (str "Test timeout", duration o.test_timeout ∷ [])
    ∷ (str "Fail fast", shown (if o.fail_fast then str "True" else str "False") ∷ [])
    ∷ []

abbrev pub blank : Message
blank = message [] []

unfoldable pub print_configuration : RunOptions → List TestModule → Call (Unit {0})
unfolding cprint print_properties print join_texts
print_configuration o modules = do
  cprint (str "cyan") false (message (str "=== Configuration ===") [])
  print_properties (modules_prop modules ∷ configuration_props o)
  print blank

unfoldable pub report_configuration : RunOptions → List TestModule → Call (Unit {0})
unfolding print_configuration
report_configuration o modules =
    if o.verbose
    then notice (message (str "Starting {}") (shown (str "TestRun") ∷ []))
    else if o.quiet
    then pure tt
    else print_configuration o modules

unfoldable pub report_module : RunOptions → TestModule → Call (Unit {0})
unfolding cprint
report_module o m =
    if o.verbose
    then notice (
        message (str "Running tests from module {} (file {})") (quoted m.name ∷ quoted m.file ∷ []))
    else if o.quiet
    then pure tt
    else cprint (str "cyan") false (message (str "=== Module {} ===") (quoted m.name ∷ []))

abbrev pub total_prop : TestRun → Text × List Arg
total_prop run = (str "Total", number_arg (total_of run) ∷ [])

abbrev pub summary_props : TestRun → List (Text × List Arg)
summary_props run =
    (str "Skipped", number_arg (skipped_of run) ∷ names_arg run.skipped_tests ∷ [])
    ∷ (str "Failed", number_arg (failed_of run) ∷ names_arg run.failed_tests ∷ [])
    ∷ []

unfoldable pub print_summary : TestRun → Call (Unit {0})
unfolding cprint print_properties print join_texts
print_summary run = do
  cprint (str "cyan") false (message (str "=== Summary ===") [])
  print_properties (total_prop run ∷ summary_props run)
  print blank

unfoldable pub print_result : TestRun → Call (Unit {0})
unfolding cprint print result_message
print_result run = do
  cprint (str "cyan") false (message (str "=== RESULT ===") [])
  if eqb (failed_of run) 0
      then cprint (str "green") false (result_message run)
      else cprint (str "red") true (result_message run)
  print blank

unfoldable pub report_summary : RunOptions → TestRun → Call (Unit {0})
unfolding print_summary print_result
report_summary o run =
    if o.verbose
    then (if eqb (failed_of run) 0
        then notice (result_message run)
        else error (formatted (result_message run)))
    else if o.quiet
    then pure tt
    else print_summary run >> print_result run

-- The end of `run_tests`.
unfoldable pub verdict : RunOptions → TestRun → Call (Unit {0})
unfolding report_summary
verdict o run =
    if eqb (total_of run) 0
    then raise (Exception.plano_error (message (str "No tests ran") []))
    else (report_summary o run
        >> (if eqb (failed_of run) 0
            then pure tt
            else raise (Exception.plano_error (result_message run))))
