-- ===== src/Examples/CommandRuns.antt =====
-- The theorems on the command framework, subrepos/plano/src/plano/command.py, at a module with two
-- commands `build`, of which the later one overrides the earlier, and one that calls the earlier.
use bsord.Base.{
  ℕ, ◌≡◌, refl, true, false, Option, none, some, List, [], ◌∷◌, Text, str, text_eq, nat_eq, arith,
  Bool-cases, inl, inr, ◌==◌,
}
use bsord.Base.Int.{pos}
use mathlib.Core.Option.{some-injective}
use mathlib.Core.Path.{subst}
use bsord.Logging.{no_output, enter_logging, log}
use bsord.Base.Dict
use bsord.Base.Dict.{Dict, keys}
use bsord.World.{
  World, Call, console_out, console_err, ok, err, Exception, ExitCode, Message, message, pure,
  raise,
}
use bsord.Commands.{
  Command, CommandParameter, Value, empty_value, int_value, bind_commands, call_command,
  run_command, MainArgs, main, SignatureParameter, ParameterKind, process_parameters, new_parameter,
  announce, conclude, main_level, value_equal,
}
use bsord.Base.{map, All}
use bsord.Iterables.Reference.{IsUnique}
use bsord.Commands.Accepted.{IsAccepted, process_commands-IsAccepted}
use bsord.Commands.Parser.{
  process_commands, Subparser, add_argument, flag_argument, flag_args, flag_help,
}
use bsord.Commands.Binding.{last_named, lookup-bind_commands, call_command-overridden}
use bsord.Commands.Endings.{main-ends}
use bsord.Commands.Nesting.{Restoring, call_command-balanced}
use bsord.Commands.Signatures.{process_parameters-declared}

abbrev start : World
start = record {
  threshold = 2;
  log_output = none;
  stdout = console_out;
  stderr = console_err;
  is_tty = λ s. false;
  environ = [];
  sys_path = [];
  expansion = λ env path. path;
  current_dir = str "/home";
  files = [];
  running_commands = str "outer" ∷ [];
  can_open = λ path. true;
  events = [];
}

abbrev quiet_command : ℕ → Text → Dict Text CommandParameter → Command
quiet_command id name parameters = record {
  id = id;
  module_name = str "m";
  name = name;
  parameters = parameters;
  passthrough = false;
  hidden = false;
  function = λ args kwargs. pure tt;
}

abbrev old_build : Command
old_build = quiet_command 0 (str "build") []

abbrev build : Command
build = quiet_command 1 (str "build") []

abbrev clean : Command
clean = quiet_command 2 (str "clean") []

abbrev variables : List (Option Command)
variables = none ∷ some old_build ∷ some clean ∷ some build ∷ []

lookup-bind_commands_example :
    Dict.lookup (str "build") (bind_commands variables []) ≡ last_named (str "build") variables
lookup-bind_commands_example = lookup-bind_commands (str "build") variables

call_command-overridden_example :
    call_command 2 (bind_commands variables []) old_build [] [] start
    ≡ run_command build [] [] start
unfolding text_eq
call_command-overridden_example =
    call_command-overridden 0 variables old_build build [] [] start refl (λ e. cc)

abbrev main_args : MainArgs
main_args = record { verbose = true; quiet = false; debug = false; init_only = false }

abbrev only_build : Dict Text Command
only_build = (str "build", build) ∷ []

build-Restoring :
    (name : Text) (command : Command)
    → Dict.lookup name only_build ≡ some command
    → Restoring command
unfolding Dict.lookup
build-Restoring name command e = elim (Bool-cases (name == str "build")) [
  | inl found ↦
      let same = some-injective build command (ground arith) in
      subst (λ c. Restoring c) same (λ args kwargs w r. refl)
  | inr other ↦ ground arith
]

call_returns : (call_command 2 only_build old_build [] [] start).0 ≡ ok tt
unfolding call_command run_command text_eq announce conclude log
call_returns = refl

call_command-balanced_example :
    (call_command 2 only_build old_build [] [] start).1.running_commands ≡ str "outer" ∷ []
call_command-balanced_example =
    call_command-balanced 2 only_build old_build [] [] start (λ args kwargs w e. refl)
      build-Restoring call_returns

main-ends_example :
    let init = pure tt in
    let run =
      λ (u : Unit {0}). raise {A = Unit {0}} (Exception.plano_error (message (str "bad") [])) in
    let inside = (enter_logging (main_level main_args) no_output start).1 in
    let (r, w') = main (λ e. str "bad") main_args init run start in
    (inside.threshold ≡ 1)
    × (r ≡ err (Exception.system_exit (ExitCode.complaint (message (str "bad") []))))
    × (w'.threshold ≡ 2)
main-ends_example =
    main-ends (λ e. str "bad") main_args (pure tt)
      (λ u. raise (Exception.plano_error (message (str "bad") []))) start (omega arith)

abbrev sparam : Text → ParameterKind → Value → SignatureParameter
sparam name kind default = record { name = name; kind = kind; default = default }

-- `def function(app, *files, size=3, **extra)`
abbrev signature : List SignatureParameter
signature =
    sparam (str "app") ParameterKind.positional_or_keyword empty_value
    ∷ sparam (str "files") ParameterKind.var_positional empty_value
    ∷ sparam (str "size") ParameterKind.keyword_only (int_value (pos 3))
    ∷ sparam (str "extra") ParameterKind.var_keyword empty_value
    ∷ []

process_parameters-declared_example :
    (d : Dict Text CommandParameter) × (process_parameters (λ t. t) [] signature ≡ ok d)
    × (keys d ≡ str "app" ∷ str "files" ∷ str "size" ∷ [])
unfolding text_eq
process_parameters-declared_example =
    process_parameters-declared (λ t. t) [] signature
      (
        refl,
        (refl, (refl, (refl, tt))),
        (refl, (refl, (refl, tt)), (refl, (refl, tt), (refl, tt, tt))),
      )
      refl

abbrev no_error : Message → Call (Unit {0})
no_error m = pure tt

abbrev positional : Text → CommandParameter
positional name = record (new_parameter (λ t. t) name) { positional = some true }

abbrev copy : Command
copy = quiet_command 3 (str "copy") (
    (str "source", positional (str "source"))
    ∷ (str "force", new_parameter (λ t. t) (str "force"))
    ∷ [])

abbrev forced : CommandParameter
forced = record (new_parameter (λ t. t) (str "be_forced")) {
  short_option = some (str "f");
  help = some (str "Force it");
  default = int_value (pos 3);
}

forced-argument : (add_argument (λ value. str "3") forced).names ≡ str "-f" ∷ str "--be-forced" ∷ []
unfolding add_argument flag_argument flag_args new_parameter
forced-argument = refl

forced-help : (add_argument (λ value. str "3") forced).help ≡ some (str "Force it (default 3)")
unfolding add_argument flag_argument flag_help new_parameter value_equal
forced-help = refl

process_commands-IsAccepted_example :
    let parsers =
      process_commands
        (λ c. c ∷ [])
        (λ value. [])
        (λ command. (none, none))
        (bind_commands (some copy ∷ none ∷ []) []) in
    IsUnique (map (λ (p : Subparser). p.name) parsers)
    × All (λ (p : Subparser). All IsAccepted p.arguments) parsers
unfolding new_parameter
process_commands-IsAccepted_example =
    process_commands-IsAccepted (λ c. c ∷ []) (λ value. []) (λ command. (none, none))
      (some copy ∷ none ∷ []) ((refl, (refl, tt)), (tt, tt))
