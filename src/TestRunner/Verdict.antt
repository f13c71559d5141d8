-- ===== src/TestRunner/Verdict.antt =====
-- What `run_tests` of subrepos/plano/src/plano/test.py runs, and how it ends.
use bsord.Base.{
  ℕ, ◌+◌, ◌≡◌, Bool, ◌⊎◌, Option, none, some, List, [], ◌∷◌, ◌++◌, Text, str, length, filter, eqb,
  if◌then◌else◌,
}
use bsord.World.{World, Call, Result, ok, err, Exception, message}
use bsord.TestRunner.Tests.{Test, TestModule, TestRun}
use bsord.TestRunner.Summary.{Selection, RunOptions, selection, new_run, result_message}
use bsord.TestRunner.Runs.{run_modules, is_chosen, TempFiles}
use bsord.TestRunner.Outcomes.{Ran, Disturbs}

module _ (matches : Text → Text → Bool) (s : Selection) where
  module_tests : Option (List Test) → List Test
  module_tests none = []
  module_tests (some tests) = filter (is_chosen matches s) tests

  -- The tests of the modules that the selection chooses, in order.
  pub chosen_tests : List TestModule → List Test
  chosen_tests [] = []
  chosen_tests (m ∷ modules) = module_tests m.tests ++ chosen_tests modules

-- How `run_tests` ends for a run that was not interrupted.
pub ending : TestRun → Result (Unit {0})
ending run =
    if eqb (length run.tests) 0
    then err (Exception.plano_error (message (str "No tests ran") []))
    else if eqb (length run.failed_tests) 0
    then ok tt
    else err (Exception.plano_error (result_message run))

-- How often a test that satisfies `q` occurs.
abbrev pub count : (Test → Bool) → List Test → ℕ
count q tests = length (filter q tests)

abbrev pub recorded : (Test → Bool) → TestRun → ℕ
recorded q run = count q run.skipped_tests + count q run.failed_tests + count q run.passed_tests

module _ (limit : ℕ → Call (Unit {0}) → Call (Unit {0})) (matches : Text → Text → Bool) where
  -- The run lists all that the selection chooses from the modules, in order; each of these tests was
  -- attempted, in order, and recorded as passed if its attempt returned, as skipped if it raised a
  -- `PlanoTestSkipped` and as failed if it raised another `Exception`; and each is recorded once.
  abbrev pub IsComplete : RunOptions → List TestModule → TestRun → Type 0
  IsComplete o modules run =
      (run.tests ≡ chosen_tests matches (selection o) modules)
      × Ran limit matches (selection o) (new_run o) (chosen_tests matches (selection o) modules) run
      × ((q : Test → Bool) → recorded q run ≡ count q run.tests)

module _ (limit : ℕ → Call (Unit {0}) → Call (Unit {0})) (matches : Text → Text → Bool)
    (temps : TempFiles) where
  -- How `run_tests` ends, from the end of its loop over the modules.
  abbrev pub IsVerdict : RunOptions → List TestModule → World → Result (Unit {0}) → Type 0
  IsVerdict o modules w r =
      let loop = (run_modules limit matches temps o (selection o) (new_run o) modules w).0 in
      ((run : TestRun) × (loop ≡ ok run)
        × IsComplete limit matches o modules run
        × (r ≡ ending run))
      ⊎ ((e : Exception) × (loop ≡ err e) × Disturbs limit temps e × (r ≡ err e))
