-- ===== src/TestRunner/Outcomes.antt =====
-- What a run of subrepos/plano/src/plano/test.py records, whatever the tests do.
use mathlib.Core.Path.{subst}
use bsord.Base.{
  ◌≡◌, refl, sym, Bool, true, false, ◌⊎◌, inl, inr, List, [], ◌∷◌, ◌++◌, Text, arith, none, filter,
  filter-append, Bool-cases, ℕ,
}
use bsord.World.{
  World, Call, Result, ok, err, Exception, is_exception, Returns, then_ok, pure, resume,
  after_leave, after_enter, ◌>>◌,
}
use bsord.Files.Blocks.{make_temp_file, remove_temp, with_temp_file}
use bsord.TestRunner.Tests.{Test, TestRun}
use bsord.TestRunner.Reports.{report_start, report_failed, print_test_output}
use bsord.TestRunner.Reports.Returning.{
  report_start-Returns, report_skipped-Returns, report_failed-ends, EndsAsOutput,
  report_passed-Returns,
}
use bsord.TestRunner.Summary.{Selection}
use bsord.TestRunner.Runs.{
  TempFiles, settle, try_test, run_test, run_chosen, run_all, is_chosen, add_test, add_skipped,
  add_failed, add_passed, attempt, matches_any,
}

-- How the end of a test's attempt is recorded.
abbrev pub HowRecorded : Result (Unit {0}) → TestRun → Test → TestRun → Type 0
HowRecorded (ok done) run test run' = run' ≡ add_passed test run
HowRecorded (err (Exception.plano_test_skipped reason)) run test run' = run' ≡ add_skipped test run
HowRecorded (err e) run test run' = (is_exception e ≡ true) × (run' ≡ add_failed test run)

-- The temporary output file of a test raises an exception as it is made, read or removed.
abbrev pub FileFails : TempFiles → Exception → Type 0
FileFails temps e =
    ((w : World) × ((make_temp_file temps.system_temp_dir temps.user temps.temp_name [] none w).0
        ≡ err e))
    ⊎ (((file : Text) × (w : World) × ((print_test_output file w).0 ≡ err e))
        ⊎ ((file : Text) × (w : World) × ((remove_temp temps.system_temp_dir temps.user
                temps.temp_name file w).0
              ≡ err e)))

-- What breaks a run off: what the attempt of a test raises and is no `Exception`, or an exception of
-- its output file.
abbrev pub Disturbs : (ℕ → Call (Unit {0}) → Call (Unit {0})) → TempFiles → Exception → Type 0
Disturbs limit temps e =
    ((output_file : Text) × (run : TestRun) × (test : Test) × (unskipped : Bool) × (w : World)
      × ((attempt limit output_file run test unskipped w).0 ≡ err e)
      × (is_exception e ≡ false))
    ⊎ FileFails temps e

-- What breaks `_run_test` off, for an attempt that has ended.
abbrev Breaks : TempFiles → Result (Unit {0}) → Exception → Type 0
Breaks temps r e = ((r ≡ err e) × (is_exception e ≡ false)) ⊎ FileFails temps e

-- The end of `_run_test`, for an attempt that has ended.
abbrev Ends : TempFiles → Result (Unit {0}) → TestRun → Test → Result (TestRun × Bool) → Type 0
Ends temps r run test (ok (run', stop)) = HowRecorded r run test run'
Ends temps r run test (err e) = Breaks temps r e

then-Ends :
    (temps : TempFiles) (r : Result (Unit {0})) (run : TestRun) (test : Test) {m : Call (Unit {0})}
    (run' : TestRun) (stop : Bool) (w : World)
    → Returns m
    → HowRecorded r run test run'
    → Ends temps r run test ((m >> pure (run', stop)) w).0
then-Ends temps r run test {m} run' stop w h k =
    subst (Ends temps r run test) {x = ok (run', stop)} (ground (arith, h.returns w)) k

-- A report of a failure that ends as the print of the output does.
failed-Ends :
    (temps : TempFiles) (e : Exception) (run : TestRun) (test : Test) (run' : TestRun) (stop : Bool)
    (output_file : Text) (p : Result (Unit {0}) × World)
    → EndsAsOutput output_file p.0
    → HowRecorded (err e) run test run'
    → Ends temps (err e) run test (resume (λ _. pure (run', stop)) p).0
failed-Ends temps e run test run' stop output_file (ok done, w) h k = k
failed-Ends temps e run test run' stop output_file (err x, w) (inl returned) k = cc
failed-Ends temps e run test run' stop output_file (err x, w) (inr (v, ended)) k =
    inr (inr (inl (output_file, v, sym ended)))

settle-Ends :
    (temps : TempFiles) (output_file : Text) (run : TestRun) (test : Test) (r : Result (Unit {0}))
    (w : World)
    → Ends temps r run test (settle output_file run test r w).0
unfolding settle
settle-Ends temps output_file run test (ok done) w =
    then-Ends temps (ok done) run test _ false w (report_passed-Returns run test) refl
settle-Ends temps output_file run test (err Exception.keyboard_interrupt) w = inl (refl, refl)
settle-Ends temps output_file run test (err (Exception.plano_test_skipped reason)) w =
    then-Ends temps (err (Exception.plano_test_skipped reason)) run test _ false w
      (report_skipped-Returns run test reason) refl
settle-Ends temps output_file run test (err (Exception.system_exit code)) w = inl (refl, refl)
settle-Ends temps output_file run test (err e) w =
    failed-Ends temps e run test (add_failed test run) run.fail_fast output_file
      (report_failed run test e output_file w) (report_failed-ends run test e output_file w)
      (refl, refl)

-- The result of a block has a property that its body's result has, and so have the exceptions of
-- its manager.
module _ {A : Type 0} (P : Result A → Type 0) where
  after_leave-case :
      (r : Result A) (l : Result (Unit {0}) × World)
      → P r
      → ((e : Exception) → l.0 ≡ err e → P (err e))
      → P (after_leave r l).0
  after_leave-case r (ok done, w) h k = h
  after_leave-case r (err e, w) h k = k e refl

  after_enter-case :
      {C : Type 0} (leave : C → Call (Unit {0})) (body : C → Call A) (p : Result C × World)
      → ((e : Exception) → p.0 ≡ err e → P (err e))
      → ((c : C) (w : World) → P (body c w).0)
      → ((c : C) (w : World) (e : Exception) → (leave c w).0 ≡ err e → P (err e))
      → P (after_enter leave body p).0
  after_enter-case leave body (ok c, w) first inside last =
      let q = body c w in after_leave-case q.0 (leave c q.1) (inside c w) (λ e. last c q.1 e)
  after_enter-case leave body (err e, w) first inside last = first e refl

module _ (limit : ℕ → Call (Unit {0}) → Call (Unit {0})) (matches : Text → Text → Bool)
    (s : Selection) where
  -- A test was attempted, and recorded as its attempt ended.
  abbrev pub Tried : TestRun → Test → TestRun → Type 0
  Tried run test run' =
      (output_file : Text) × (w : World) × HowRecorded
        (attempt limit output_file run test (matches_any matches s.unskip test.name) w).0 run test
        run'

  -- From a run to another the tests were listed, attempted and recorded, one after another.
  abbrev pub Ran : TestRun → List Test → TestRun → Type 0
  Ran run [] run' = run' ≡ run
  Ran run (test ∷ tests) run' =
      (run₁ : TestRun) × Tried (add_test test run) test run₁ × Ran run₁ tests run'

  Ran-append :
      (run run₁ run₂ : TestRun) (c₁ c₂ : List Test)
      → Ran run c₁ run₁
      → Ran run₁ c₂ run₂
      → Ran run (c₁ ++ c₂) run₂
  Ran-append run run₁ run₂ [] c₂ a b = subst (λ r. Ran r c₂ run₂) a b
  Ran-append run run₁ run₂ (test ∷ c₁) c₂ (next, tried, a) b =
      (next, tried, Ran-append next run₁ run₂ c₁ c₂ a b)

  module _ (temps : TempFiles) where
    -- A call that ends in a run has come to it by these tests, and what it raises disturbs.
    abbrev pub Progress : TestRun → List Test → Result TestRun → Type 0
    Progress run chosen (ok run') = Ran run chosen run'
    Progress run chosen (err e) = Disturbs limit temps e

    joined-Progress :
        (run run₁ : TestRun) (c₁ c₂ : List Test) (r : Result TestRun)
        → Ran run c₁ run₁
        → Progress run₁ c₂ r
        → Progress run (c₁ ++ c₂) r
    joined-Progress run run₁ c₁ c₂ (ok run₂) a b = Ran-append run run₁ run₂ c₁ c₂ a b
    joined-Progress run run₁ c₁ c₂ (err e) a b = b

    pub resume-Progress :
        (run : TestRun) (f : TestRun → Call TestRun) (c₁ c₂ : List Test)
        (p : Result TestRun × World)
        → Progress run c₁ p.0
        → ((run₁ : TestRun) (w₁ : World) → Progress run₁ c₂ (f run₁ w₁).0)
        → Progress run (c₁ ++ c₂) (resume f p).0
    resume-Progress run f c₁ c₂ (ok run₁, w₁) a k =
        joined-Progress run run₁ c₁ c₂ (f run₁ w₁).0 a (k run₁ w₁)
    resume-Progress run f c₁ c₂ (err e, w₁) a k = a

    abbrev Finished : TestRun → Test → Result (TestRun × Bool) → Type 0
    Finished run test (ok (run', stop)) = Tried run test run'
    Finished run test (err e) = Disturbs limit temps e

    Ends-Finished :
        (run : TestRun) (test : Test) (output_file : Text) (w : World) (r : Result (TestRun × Bool))
        → Ends temps
            (attempt limit output_file run test (matches_any matches s.unskip test.name) w).0
            run
            test
            r
        → Finished run test r
    Ends-Finished run test output_file w (ok (run', stop)) h = (output_file, w, h)
    Ends-Finished run test output_file w (err e) (inl (raised, no_exception)) =
        inl
          (output_file, run, test, matches_any matches s.unskip test.name, w, raised, no_exception)
    Ends-Finished run test output_file w (err e) (inr fails) = inr fails

    try_test-Finished :
        (run : TestRun) (test : Test) (output_file : Text) (w : World)
        → Finished run test
            (try_test limit matches temps run test
              (matches_any matches s.unskip test.name)
              output_file
              w).0
    unfolding try_test
    try_test-Finished run test output_file w =
        let p = attempt limit output_file run test (matches_any matches s.unskip test.name) w in
        Ends-Finished run test output_file w _ (settle-Ends temps output_file run test p.0 p.1)

    run_test-Finished :
        (run : TestRun) (test : Test) (w : World)
        → Finished run test
            (run_test limit matches temps run test (matches_any matches s.unskip test.name) w).0
    unfolding run_test with_temp_file
    run_test-Finished run test w =
        let unskipped = matches_any matches s.unskip test.name in
        let w₁ = (report_start run test w).1 in
        subst (λ p. Finished run test p.0) (sym (then_ok _ (report_start-Returns run test) w))
          (after_enter-case (Finished run test)
            (remove_temp temps.system_temp_dir temps.user temps.temp_name)
            (try_test limit matches temps run test unskipped)
            (make_temp_file temps.system_temp_dir temps.user temps.temp_name [] none w₁)
            (λ e h. inr (inl (w₁, h))) (λ file v. try_test-Finished run test file v)
            (λ file v e h. inr (inr (inr (file, v, h)))))

    first-Progress :
        (run : TestRun) (test : Test) (p : Result (TestRun × Bool) × World)
        → Finished (add_test test run) test p.0
        → Progress run (test ∷ []) (resume (λ q. pure q.0) p).0
    first-Progress run test (ok (run', stop), w) h = (run', h, refl)
    first-Progress run test (err e, w) h = h

    run_chosen-Progress :
        (run : TestRun) (test : Test) (w : World)
        → Progress run
            (filter (is_chosen matches s) (test ∷ []))
            (run_chosen limit matches temps s run test w).0
    unfolding run_chosen
    run_chosen-Progress run test w = elim (Bool-cases (is_chosen matches s test)) [
      | inl chosen ↦
          rw chosen (first-Progress run test _ (run_test-Finished (add_test test run) test w))
      | inr passed_over ↦ rw passed_over refl
    ]

    pub run_all-Progress :
        (run : TestRun) (tests : List Test) (w : World)
        → Progress run
            (filter (is_chosen matches s) tests)
            (run_all limit matches temps s run tests w).0
    unfolding run_all
    run_all-Progress run [] w = refl
    run_all-Progress run (test ∷ tests) w =
        subst (λ c. Progress run c (run_all limit matches temps s run (test ∷ tests) w).0)
          (sym (filter-append (is_chosen matches s) (test ∷ []) tests))
          (resume-Progress run (λ run'. run_all limit matches temps s run' tests) _ _ _
            (run_chosen-Progress run test w) (λ run' w'. run_all-Progress run' tests w'))
