-- ===== src/Running/Calls.antt =====
-- How `call` ends, by what becomes of its process.
use mathlib.Core.Path.{subst}
use bsord.Base.{
  [], ◌≡◌, refl, ap, sym, Bool, true, false, Option, none, some, List, Text, if◌then◌else◌, inl,
  inr, Bool-cases,
}
use bsord.Base.Int.{ℤ}
use bsord.World.{World, Call, Result, ok, err, Exception, message, pure, assert, gets, ◌>>=◌, ◌>>◌}
use bsord.Processes.{PlanoProcess, is_positive}
use bsord.Running.{
  ProcessCommand, System, Program, Options, pipe, piped, no_stream, start, wait_for, run, call,
  command_list, started, can_pipe, input_stream,
}
use bsord.Running.Outcomes.{
  Ends, IsOk, bind-Ends, bind-exact, bind-err, pure-Ends, info_if-Ends, debug-Ends,
  format_command-Ends, program-Ends, wait_for-Ends,
}

started-Ends :
    (sys : System) (formatted : Text) (proc : PlanoProcess)
    → Ends (started sys formatted (inr proc)) (λ r. r ≡ ok proc)
started-Ends sys formatted proc = bind-Ends _ _ (debug-Ends _) (λ _. record { ends = λ w. refl })

piped_input : (input : Option Text) → input_stream input pipe ≡ pipe
piped_input none = refl
piped_input (some t) = refl

pipe_given : (input : Option Text) → can_pipe input pipe ≡ true
pipe_given none = refl
pipe_given (some t) = refl

-- The streams of a process that `call` starts.
abbrev piped_options : Bool → Options
piped_options shell = record {
  stdin = piped;
  stdout = piped;
  stderr = piped;
  shell = shell;
  stash_file = none;
}

module _ (sys : System) (command : ProcessCommand) (args : List Text)
    (split : command_list sys command ≡ some args) (proc : PlanoProcess)
    (made : (program : Program) (options : Options) (w : World)
      → sys.popen program options w ≡ inr proc) where
  popen-Ends :
      (program : Program) (shell : Bool)
      → Ends (gets (sys.popen program (piped_options shell))) (λ r. r ≡ ok (inr proc))
  popen-Ends program shell = record { ends = λ w. ap ok (made program (piped_options shell) w) }

  start-Ends :
      (shell : Bool)
      → Ends (start sys command pipe pipe pipe no_stream shell false true) (λ r. r ≡ ok proc)
  unfolding start
  start-Ends shell = bind-Ends _ _ (format_command-Ends sys command args split) (λ formatted.
      bind-Ends _ _ (info_if-Ends true _) (λ _.
        bind-Ends _ _ (program-Ends sys command args split shell) (λ program.
          bind-exact (started sys formatted) _ (inr proc) (popen-Ends program shell)
            (started-Ends sys formatted proc))))

  module _ (code : ℤ) (input out errors : Option Text) (clean : proc.stash_file ≡ none)
      (ended : sys.outcome proc ≡ some code)
      (said : (w : World) → (sys.communicate proc input w).0 ≡ (out, errors)) where
    piped_start-Ends :
        (shell : Bool)
        → Ends
            (start sys command (input_stream input pipe) pipe pipe no_stream shell false true)
            (λ r. r ≡ ok proc)
    piped_start-Ends shell =
        subst
          (λ s. Ends (start sys command s pipe pipe no_stream shell false true) (λ r. r ≡ ok proc))
          (sym (piped_input input)) (start-Ends shell)

    assert-Ends : Ends (assert (can_pipe input pipe) (message [] [])) IsOk
    assert-Ends =
        subst (λ b. Ends (assert b (message [] [])) IsOk) (sym (pipe_given input)) (pure-Ends tt)

    abbrev failure : Exception
    failure = Exception.plano_process_error code (message proc.command [])

    -- What is returned, or raised for a positive exit code.
    abbrev ending : {A : Type 0} → A → Result A
    ending a = if is_positive code then err failure else ok a

    -- What goes on only after a good ending.
    bind-ending :
        {A B : Type 0} {m : Call A} (f : A → Call B) (a : A) (b : B)
        → Ends m (λ r. r ≡ ending a)
        → Ends (f a) (λ r. r ≡ ok b)
        → Ends (m >>= f) (λ r. r ≡ ending b)
    bind-ending {m} f a b hm hf = elim (Bool-cases (is_positive code)) [
      | inl e ↦
          subst
            (λ c.
              Ends m (λ r. r ≡ (if c then err failure else ok a))
              → Ends (m >>= f) (λ r. r ≡ (if c then err failure else ok b)))
            (sym e) (λ h. bind-err f failure h) hm
      | inr e ↦
          subst
            (λ c.
              Ends m (λ r. r ≡ (if c then err failure else ok a))
              → Ends (m >>= f) (λ r. r ≡ (if c then err failure else ok b)))
            (sym e) (λ h. bind-exact f (λ r. r ≡ ok b) a h hf) hm
    ]

    communicate-Ends :
        Ends
          (λ w. pure (sys.communicate proc input w).0 (sys.communicate proc input w).1)
          (λ r. r ≡ ok (out, errors))
    communicate-Ends = record { ends = λ w. ap ok (said w) }

    run-Ends :
        (shell : Bool)
        → Ends
            (run sys command pipe pipe pipe input no_stream false shell true true)
            (λ r. r ≡ ending (out, errors))
    unfolding run
    run-Ends shell = bind-Ends _ _ (format_command-Ends sys command args split) (λ formatted.
        bind-Ends _ _ (info_if-Ends true _) (λ _. bind-Ends _ _ assert-Ends (λ _.
          bind-exact _ _ proc (piped_start-Ends shell) (
            bind-exact (λ results. wait_for sys proc true >> pure results) _ (out, errors)
              communicate-Ends
              (bind-ending (λ _. pure (out, errors)) code (out, errors)
                (wait_for-Ends sys proc code clean ended) (record { ends = λ w. refl }))))))

    -- If the command can be split into words, and a process without a stash file can be started for
    -- it, which writes `out` to its standard output and ends, then `call` raises a
    -- `PlanoProcessError` for a positive exit code, and otherwise, so also after a signal, returns
    -- what was written.
    pub call-Ends :
        (shell quiet : Bool) (w : World)
        → (call sys command input shell quiet w).0 ≡ (
            if is_positive code
            then err (Exception.plano_process_error code (message proc.command []))
            else ok out)
    unfolding call
    call-Ends shell quiet w =
        (bind-Ends _ (λ r. r ≡ ending out) (format_command-Ends sys command args split)
            (λ formatted.
              bind-Ends _ (λ r. r ≡ ending out) (info_if-Ends quiet _)
                (λ _.
                  bind-ending (λ results. pure results.0) (out, errors) out (run-Ends shell)
                    (record { ends = λ w. refl })))).ends
          w
