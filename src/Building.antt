-- ===== src/Building.antt =====
-- The build commands of .plano.py: `build`, `run_`, `inject` and `clean`, with the parameters of the
-- operations of plano that they call, and `sleep` and `get_program_name` of
-- subrepos/plano/src/plano/main.py.
use bsord.Base.{
  ℕ, Bool, true, false, not, Option, none, some, List, [], ◌∷◌, Text, str, contains, nat_eq,
  if◌then◌else◌,
}
use bsord.Base.Int.{pos}
use bsord.World.{World, Call, message, number, shown, pure, with_manager, ◌>>◌}
use bsord.Logging.{info_if}
use bsord.Strings.{plural}
use bsord.Paths.{get_base_name}
use bsord.Environment.{check_program, one_path}
use bsord.Files.{remove}
use bsord.Files.Copying.{copy}
use bsord.Processes.{kill}
use bsord.Running.{System, command_text, no_stream, run, start}

-- `sleep` for a whole number of seconds; the time itself is left out.
unfoldable pub sleep : ℕ → Bool → Call (Unit {0})
unfolding plural
sleep seconds quiet = info_if quiet (
    message (str "Sleeping for {} {}")
      (number (pos seconds) ∷ shown (plural (some (str "second")) seconds none) ∷ []))

-- The loop of `get_program_name`, which passes over the settings of variables.
unfoldable pub program_name : World → List Text → Option Text
unfolding get_base_name nat_eq
program_name w [] = none
program_name w (arg ∷ args) =
    if not (contains arg b'=') then some (get_base_name w arg) else program_name w args

-- The argument of `get_program_name`, whose words are the parameter `words`.
unfoldable pub get_program_name : (Text → List Text) → List Text → Option Text → World → Option Text
unfolding program_name
get_program_name words args none w = program_name w args
get_program_name words args (some command) w = program_name w (words command)

module _ (found : Text → Bool) (sys : System) (matches : Text → Text → Bool)
    (sort : List Text → List Text) (depth : ℕ) where
  -- `run(command)`
  abbrev pub run_text : Text → Call (Unit {0})
  run_text command =
      run sys (command_text command) no_stream no_stream no_stream none no_stream false false true
        false
      >> pure tt

  -- `with start(command): body`, which kills the process at its end.
  abbrev pub with_process : Text → Call (Unit {0}) → Call (Unit {0})
  with_process command body =
      with_manager
        (start sys (command_text command) no_stream no_stream no_stream no_stream false false false)
        (λ proc. kill proc false) (λ proc. body)

  -- `build`
  unfoldable pub build : Call (Unit {0})
  unfolding check_program run
  build = do
    check_program found (str "gcc") (some (str "I can't find gcc.  Run 'dnf install gcc'."))
    run_text (str "gcc client.c -o client -g -O2 -std=c99 -fno-omit-frame-pointer")
    run_text (
        str
          "gcc server.c panic.c -o server -g -O2 -std=c99 -fno-omit-frame-pointer -lunwind -Wall -Wextra")

  -- `run_`
  unfoldable pub run_ : Bool → Call (Unit {0})
  unfolding build start kill sleep run
  run_ gdb =
      build
      >> (if gdb
          then with_process
              (str
                "gdb -ex run -ex '''thread apply all bt''' -ex '''set confirm off''' --args server")
              (sleep 2 false >> run_text (str "client"))
          else with_process (str "server") (sleep 1 false >> run_text (str "client")))

  -- `inject`
  unfoldable pub inject : Call (Unit {0})
  unfolding copy
  inject = do
    copy matches sort depth (str "panic.h") (str "~/code/skupper-router/router/src/panic.h") true
        true false
    copy matches sort depth (str "panic.c") (str "~/code/skupper-router/router/src/panic.c") true
        true false
    pure tt

-- `clean`
unfoldable pub clean : Call (Unit {0})
unfolding remove
clean = do
  remove (one_path (str "client")) false
  remove (one_path (str "server")) false
  remove (one_path (str "__pycache__")) false
