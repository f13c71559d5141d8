-- ===== src/TestRunner/Reports/Returning.antt =====
-- The reports of the test runner, subrepos/plano/src/plano/test.py: only the print of a failed test's output may raise.
use bsord.Base.{
  ℕ, ◌⊎◌, inl, inr, Bool-cases, ◌∙◌, ◌≡◌, refl, ap, Bool, true, false, some, List, ◌∷◌, Text, str,
  arith, text_eq,
}
use bsord.World.{
  World, Result, ok, then_ok, ◌>>◌, Message, Exception, LogMessage, Arg, Returns, pure-Returns,
  then-Returns, if-Returns,
}
use bsord.Base.{Option}
use bsord.Logging.{log}
use bsord.Console.{cprint, print, print_to, get_color_code, print_properties}
use bsord.Console.Colors.{with_color_balanced}
use bsord.Console.Alignment.{print_lines_lem}
use bsord.TestRunner.Tests.{Test, TestRun}
use bsord.TestRunner.Reports.{
  report_start, report_skipped, report_failed, report_passed, print_test_result, print_test_error,
  print_test_output, print_exc, failed_status,
}

pub print-Returns : (m : Message) → Returns (print m)
unfolding print
print-Returns m = record { returns = λ w. refl }

pub log-Returns : (level : ℕ) (m : LogMessage) → Returns (log level m)
unfolding log
log-Returns level m = record { returns = λ w. ground arith }

pub cprint-Returns :
    (color : Text) (bright : Bool) {code : Text} (m : Message)
    → get_color_code color bright ≡ some code
    → Returns (cprint color bright m)
unfolding cprint
cprint-Returns color bright {code} m known = record {
  returns = λ w.
      ground (arith, with_color_balanced color code bright w.stdout (print_to w.stdout m) w known);
}

print_test_result-Returns :
    (status color : Text) (bright : Bool) {code : Text}
    → get_color_code color bright ≡ some code
    → Returns (print_test_result status color bright)
unfolding print_test_result
print_test_result-Returns status color bright known =
    then-Returns (cprint-Returns color bright _ known) (print-Returns _)

pub report_start-Returns : (run : TestRun) (test : Test) → Returns (report_start run test)
unfolding report_start
report_start-Returns run test =
    if-Returns _ (log-Returns _ _) (if-Returns _ pure-Returns (print-Returns _))

yellow : get_color_code (str "yellow") false ≡ some (0x1b ∷ str "[33m")
unfolding get_color_code text_eq
yellow = refl

red : get_color_code (str "red") true ≡ some (0x1b ∷ str "[31;1m")
unfolding get_color_code text_eq
red = refl

white : get_color_code (str "white") false ≡ some (0x1b ∷ str "[37m")
unfolding get_color_code text_eq
white = refl

pub report_passed-Returns : (run : TestRun) (test : Test) → Returns (report_passed run test)
unfolding report_passed
report_passed-Returns run test =
    if-Returns _ (log-Returns _ _)
      (if-Returns _ pure-Returns (print_test_result-Returns _ _ false white))

pub report_skipped-Returns :
    (run : TestRun) (test : Test) (reason : Option Text) → Returns (report_skipped run test reason)
unfolding report_skipped
report_skipped-Returns run test reason = if-Returns _ (log-Returns _ _) (
    if-Returns _ pure-Returns
      (then-Returns (print_test_result-Returns _ _ false yellow) (print-Returns _)))

print_test_error-Returns : (e : Exception) → Returns (print_test_error e)
unfolding print_test_error
print_test_error-Returns (Exception.plano_process_error code m) =
    then-Returns (cprint-Returns _ false _ yellow) (print-Returns _)
print_test_error-Returns e = then-Returns (cprint-Returns _ false _ yellow) (print-Returns _)

print_exc-Returns : Returns print_exc
unfolding print_exc
print_exc-Returns = record { returns = λ w. refl }

-- The report of a failure ends as the print of the test's output does, or returns.
abbrev pub EndsAsOutput : Text → Result (Unit {0}) → Type 0
EndsAsOutput output_file r = (r ≡ ok tt) ⊎ ((w : World) × (r ≡ (print_test_output output_file w).0))

pub report_failed-ends :
    (run : TestRun) (test : Test) (e : Exception) (output_file : Text) (w : World)
    → EndsAsOutput output_file (report_failed run test e output_file w).0
unfolding report_failed
report_failed-ends run test e output_file w = elim (Bool-cases run.verbose) [
  | inl verbose ↦ rw verbose (inl ((then-Returns print_exc-Returns (log-Returns 4 _)).returns w))
  | inr shown ↦ elim (Bool-cases run.quiet) [
    | inl quiet ↦ rw (shown, quiet) (inl refl)
    | inr loud ↦
        let print_result = print_test_result-Returns _ _ true red in
        let w₁ = (print_test_result (failed_status e) (str "red") true w).1 in
        rw (shown, loud)
          (inr (
            (print_test_error e w₁).1,
            ap (λ p. p.0)
                (then_ok (print_test_error e >> print_test_output output_file) print_result w
                  ∙ then_ok (print_test_output output_file) (print_test_error-Returns e) w₁),
          ))
  ]
]

pub print_properties-Returns :
    (prop : Text × List Arg) (props : List (Text × List Arg))
    → Returns (print_properties (prop ∷ props))
unfolding print_properties
print_properties-Returns prop props = record {
  returns = λ w. ap (λ p. p.0) (print_lines_lem _ (prop ∷ props) w);
}
