-- ===== src/Commands/Endings.antt =====
-- How `BaseCommand.main` ends.
use bsord.Base.{
  ℕ, ◌≡◌, ◌∙◌, ◌==◌, ◌||◌, some, ◌<◌, refl, Bool, true, false, [], Text, str, text_eq, arith,
  if◌then◌else◌, contains,
}
use bsord.Base.Int.{pos}
use bsord.World.{World, Call, Result, ok, err, Exception, ExitCode, is_plano_error, message}
use bsord.Logging.{no_output, enter_logging, logging_levels, index_of}
use bsord.Logging.Restores.{with_logging-restores, enter_logging-threshold}
use bsord.Commands.{MainArgs, main, main_level, handle, init_and_run}
use bsord.Processes.{exit}

-- `--debug` goes before `--quiet`, and `--quiet` before `--verbose`.
abbrev pub threshold_of : MainArgs → ℕ
threshold_of args =
    if args.debug then 0 else if args.quiet then 4 else if args.verbose then 1 else 2

-- How the program ends when an exception leaves `init` or `run`.
abbrev exit_for : (Exception → Text) → Bool → Exception → Result (Unit {0})
exit_for text_of true e = err (Exception.system_exit (ExitCode.status (pos 1)))
exit_for text_of false e = err (Exception.system_exit (ExitCode.complaint (message (text_of e) [])))

abbrev pub ending : (Exception → Text) → MainArgs → Result (Unit {0}) → Result (Unit {0})
ending text_of args (ok done) = ok tt
ending text_of args (err Exception.keyboard_interrupt) = ok tt
ending text_of args (err e) = if is_plano_error e then exit_for text_of args.debug e else err e

main_level-known : (args : MainArgs) → contains logging_levels (main_level args) ≡ true
unfolding main_level text_eq
main_level-known args = ground arith

handle-ending :
    (text_of : Exception → Text) (args : MainArgs) (r : Result (Unit {0})) (w : World)
    → (handle text_of args (r, w)).0 ≡ ending text_of args r
unfolding handle exit
handle-ending text_of args (ok done) w = refl
handle-ending text_of args (err e) w = ground arith

main_level-index :
    (args : MainArgs) → index_of logging_levels (main_level args) ≡ some (threshold_of args)
unfolding main_level text_eq index_of
main_level-index args = ground arith

main_level-enabled : (args : MainArgs) → (main_level args == str "disabled") ≡ false
unfolding main_level text_eq
main_level-enabled args = ground arith

or_true : (b : Bool) → (b || true) ≡ true
or_true true = refl
or_true false = refl

main_level-threshold :
    (args : MainArgs) (w : World)
    → w.threshold < 6
    → (enter_logging (main_level args) no_output w).1.threshold ≡ threshold_of args
main_level-threshold args w valid =
    enter_logging-threshold (main_level args) no_output w (threshold_of args)
      (main_level-known args) (main_level-index args) (main_level-enabled args) valid refl

-- The program logs at the level that its options choose while `init` and `run` go on, and
-- returns when they return or the keyboard interrupts them. A `PlanoError` that leaves them ends it by a
-- `SystemExit`, with the status 1 with `--debug` and with the error's text without. Any other
-- exception is passed on. Afterwards the threshold is the old one.
pub main-ends :
    {A : Type 0} (text_of : Exception → Text) (args : MainArgs) (init : Call A)
    (run : A → Call (Unit {0})) (w : World)
    → w.threshold < 6
    → let inside = (enter_logging (main_level args) no_output w).1 in
      let (r, w') = main text_of args init run w in
      (inside.threshold ≡ threshold_of args)
      × (r ≡ ending text_of args (init_and_run args init run inside).0)
      × (w'.threshold ≡ w.threshold)
unfolding main
main-ends text_of args init run w valid =
    let inside = (enter_logging (main_level args) no_output w).1 in
    let body = λ (v : World). handle text_of args (init_and_run args init run v) in
    let (passed, restored, _) =
      with_logging-restores (main_level args) no_output body w (main_level-known args) valid
        (or_true (main_level args == str "disabled")) in
    let (r, v) = init_and_run args init run inside in
    (main_level-threshold args w valid, passed ∙ handle-ending text_of args r v, restored)
