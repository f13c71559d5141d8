-- ===== src/Commands/Application.antt =====
-- `PlanoCommand` of subrepos/plano/src/plano/command.py as a whole: its two parsers, `parse_args`, and
-- a run from the command line to the end of the program. What argparse does is the parameter
-- `parser`, and `texts` gives the help text and the description of a command.
use bsord.Base.{
  ℕ, Bool, true, false, ◌==◌, Option, none, some, List, [], ◌∷◌, ◌++◌, Text, text_eq, str, map,
  if◌then◌else◌,
}
use bsord.Base.Dict.{Dict}
use bsord.World.{Call, Exception, Message, pure, modify, ◌>>=◌, ◌>>◌}
use bsord.Commands.{
  Command, Value, none_value, bool_value, bind_commands, MainArgs, main, Namespace,
  preceding_commands, init, run,
}
use bsord.Commands.Loading.{load_file, load_module}
use bsord.Commands.Parser.{
  Argument, ArgumentCount, single, at_most_one, Subparser, capitalize_help, process_commands,
}

-- `argparse.SUPPRESS`
abbrev pub suppress : Text
suppress = str "==SUPPRESS=="

-- An option that is off unless it is given.
abbrev pub switch : List Text → Text → Argument
switch names help = record {
  names = names;
  dest = none;
  metavar = none;
  type = none;
  help = some help;
  count = single;
  default = bool_value false;
  store_true = true;
  appends = false;
}

abbrev pub valued : List Text → ArgumentCount → Text → Argument
valued names count help = record {
  names = names;
  dest = none;
  metavar = none;
  type = none;
  help = some help;
  count = count;
  default = none_value;
  store_true = false;
  appends = false;
}

module _ (upper : ℕ → Text) where
  -- `_capitalize_help` for one argument, whose help text may be suppressed.
  unfoldable pub capitalize_shown : Argument → Argument
  unfolding capitalize_help
  capitalize_shown argument = elim argument.help [
    | none ↦ argument
    | some help ↦ if help == suppress then argument else capitalize_help upper argument
  ]

  -- `BaseArgumentParser.__init__`
  unfoldable pub base_arguments : List Argument
  unfolding capitalize_shown
  base_arguments = map capitalize_shown (
      switch (str "--verbose" ∷ []) (str "Print detailed logging to the console")
      ∷ switch (str "--quiet" ∷ []) (str "Print no logging to the console")
      ∷ switch (str "--debug" ∷ []) (str "Print debugging output to the console")
      ∷ switch (str "--init-only" ∷ []) suppress
      ∷ [])

  -- The arguments that the parser takes from the preliminary one.
  unfoldable pub shared_arguments : Bool → List Argument
  unfolding base_arguments
  shared_arguments has_module =
      base_arguments
      ++ (switch (str "-h" ∷ str "--help" ∷ []) (str "Show this help message and exit")
          ∷ (if has_module
              then []
              else valued (str "-f" ∷ str "--file" ∷ []) single
                  (str "Load commands from FILE (default '.plano.py')")
                ∷ valued (str "-m" ∷ str "--module" ∷ []) single (str "Load commands from MODULE")
                ∷ []))

  -- Those of the preliminary parser, which looks for a command.
  unfoldable pub pre_arguments : Bool → List Argument
  unfolding shared_arguments
  pre_arguments has_module =
      shared_arguments has_module ++ valued (str "command" ∷ []) at_most_one suppress ∷ []

-- What the preliminary parser finds.
pub record PreArgs : Type 0 where
  pub file : Option Text
  pub module_name : Option Text
  pub command : Option Text

-- What the parser finds, and the arguments that it leaves over.
pub record ParsedArgs : Type 0 where
  pub main_args : MainArgs
  pub namespace : Namespace
  pub passthrough_args : List Text

pub record ArgumentParser : Type 0 where
  -- `self.pre_parser.parse_known_args(args)`
  pub parse_pre : List Argument → List Text → Call PreArgs
  -- `self.parser.parse_known_args(args)`
  pub parse_known : List Argument → List Subparser → List Text → Call ParsedArgs
  -- `self.parser.error(message)`
  pub parser_error : Message → Call (Unit {0})
  -- `self.parser.print_help()`
  pub print_help : Call (Unit {0})

-- The variables of a module: the commands among them, and `none` for what is no command.
abbrev pub Variables : Type 0
Variables = List (Option Command)

pub record Application : Type 0 where
  pub module_vars : Option Variables
  pub bound_commands : Dict Text Command

-- `PlanoCommand.__init__`
unfoldable pub new_application : Option Variables → Call Application
new_application module_vars =
    modify (λ w. record w { running_commands = [] })
    >> pure (record { module_vars = module_vars; bound_commands = [] })

abbrev pub is_given : Option Variables → Bool
is_given none = false
is_given (some vars) = true

-- `_bind_commands`, unless there is no module.
abbrev pub bind_module : Option Variables → Dict Text Command → Dict Text Command
bind_module none bound = bound
bind_module (some vars) bound = bind_commands vars bound

abbrev as_given : Variables → Call (Option Variables)
as_given vars = pure (some vars)

module _ (parser : ArgumentParser) (text_of : Exception → Text) (upper : ℕ → Text)
    (repr_text : Value → Text) (texts : Command → Option Text × Option Text)
    (exec_module : Text → Call Variables) (import_module : Text → Option Variables) where
  -- The module that the commands are bound from.
  unfoldable pub find_module : Option Variables → PreArgs → Call (Option Variables)
  unfolding load_file load_module
  find_module (some vars) pre = pure (some vars)
  find_module none pre = elim pre.module_name [
    | none ↦ load_file text_of exec_module pre.file
    | some name ↦ load_module text_of import_module name >>= as_given
  ]

  -- `parse_args`: the application, the preceding commands and the arguments.
  unfoldable pub parse_args :
      Application → List Text → Call (Application × List Command × ParsedArgs)
  unfolding find_module bind_commands preceding_commands process_commands
  parse_args app args = do
    let arguments = shared_arguments upper (is_given app.module_vars)
    pre ← parser.parse_pre (pre_arguments upper (is_given app.module_vars)) args
    module_vars ← find_module app.module_vars pre
    let bound = bind_module module_vars app.bound_commands
    (preceding, args') ← preceding_commands parser.parser_error bound pre.command args
    parsed ← parser.parse_known arguments (process_commands upper repr_text texts bound) args'
    pure (record { module_vars = module_vars; bound_commands = bound }, preceding, parsed)

  -- `BaseCommand.main` from the parsed arguments on.
  unfoldable pub main_parsed : ℕ → Application × List Command × ParsedArgs → Call (Unit {0})
  unfolding main init run
  main_parsed depth (app, preceding, parsed) =
      main text_of parsed.main_args
        (init parser.parser_error app.bound_commands depth parsed.namespace preceding
          parsed.passthrough_args)
        (run parser.parser_error app.bound_commands depth parser.print_help parsed.namespace
          (is_given app.module_vars))

  -- `PlanoCommand.main`
  unfoldable pub main_application : ℕ → Application → List Text → Call (Unit {0})
  unfolding parse_args main_parsed
  main_application depth app args = parse_args app args >>= main_parsed depth
