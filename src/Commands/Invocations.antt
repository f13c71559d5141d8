-- ===== src/Commands/Invocations.antt =====
-- `PlanoCommand` of subrepos/plano/src/plano/command.py: the commands and the arguments that are
-- selected on the command line, and how they are called. What argparse makes of the command line is
-- a parameter, as is its `parser_error`.
use bsord.Base.{
  split_on, ℕ, Bool, true, false, not, ◌&&◌, ◌||◌, Option, none, some, List, [], ◌∷◌, ◌++◌, Text,
  text_eq, nat_eq, str, contains, map, if◌then◌else◌, ◌==◌,
}
use mathlib.Core.Option
use bsord.Base.Dict
use bsord.Base.Dict.{Dict}
use bsord.World.{
  Call, Exception, shown, elapsed, Message, message, pure, when, or_raise, ◌>>=◌, ◌>>◌,
}
use bsord.Console.{cprint_to}
use bsord.Commands.Values.{Value, list_value}
use bsord.Commands.Parameters.{CommandParameter}
use bsord.Commands.Calls.{Command, call_command, is_positional, print_magenta}

-- `text.split(",")`
unfoldable pub split_commas : Text → List Text
split_commas t = split_on b',' t

-- `names[:-1]`
abbrev pub but_last : List Text → List Text
but_last [] = []
but_last (t ∷ []) = []
but_last (t ∷ u ∷ ts) = t ∷ but_last (u ∷ ts)

-- `names[-1]`, with a name for the empty list.
abbrev pub last_or : Text → List Text → Text
last_or t [] = t
last_or t (u ∷ us) = last_or u us

-- `args[args.index(old)] = new`, with `none` for the `ValueError`.
unfoldable pub replace_first : Text → Text → List Text → Option (List Text)
replace_first old new [] = none
replace_first old new (arg ∷ args) =
    if arg == old
    then some (new ∷ args)
    else Option.map (λ (rest : List Text). arg ∷ rest) (replace_first old new args)

-- The parsed arguments: `values` has those of a parameter that takes several.
pub record Namespace : Type 0 where
  pub help : Bool
  pub command : Option Text
  pub value : Text → Value
  pub values : Text → List Value

-- What `init` leaves for `run`.
pub record Invocation : Type 0 where
  pub selected_command : Command
  pub command_args : List Value
  pub command_kwargs : Dict Text Value

-- What one round of the loop of `init` adds to `command_args`.
abbrev pub positional_values : Namespace → CommandParameter → List Value
positional_values ns param =
    if param.name == str "passthrough_args"
    then []
    else if is_positional param
    then (if param.multiple then ns.values param.name else ns.value param.name ∷ [])
    else []

-- What it makes of `command_kwargs`.
abbrev pub with_keyword : Namespace → CommandParameter → Dict Text Value → Dict Text Value
with_keyword ns param kwargs =
    if param.name == str "passthrough_args"
    then kwargs
    else if is_positional param
    then kwargs
    else Dict.insert param.name (ns.value param.name) kwargs

-- The loop of `init` over the parameters of the selected command.
unfoldable pub collect_arguments :
    Namespace
    → Dict Text CommandParameter
    → List Value
    → Dict Text Value
    → List Value × Dict Text Value
collect_arguments ns [] args kwargs = (args, kwargs)
collect_arguments ns ((_, param) ∷ params) args kwargs =
    collect_arguments ns params (args ++ positional_values ns param) (with_keyword ns param kwargs)

module _ (parser_error : Message → Call (Unit {0})) (bound : Dict Text Command) where
  -- The loop of `parse_args` over the names of the commands before the last.
  unfoldable pub find_commands : List Text → Call (List Command)
  unfolding Dict.lookup
  find_commands [] = pure []
  find_commands (name ∷ names) = elim (Dict.lookup name bound) [
    | none ↦
        parser_error (message (str "Command '{}' is unknown") (shown name ∷ []))
        >> find_commands names
    | some command ↦ find_commands names >>= λ commands. pure (command ∷ commands)
  ]

  -- The commands that precede the last, and the arguments that name the last alone.
  unfoldable pub preceding_commands : Option Text → List Text → Call (List Command × List Text)
  preceding_commands none args = pure ([], args)
  preceding_commands (some command) args =
      if contains command b','
      then (let names = split_commas command in
          do
            commands ← find_commands (but_last names)
            new_args ←
                or_raise (replace_first command (last_or [] names) args) Exception.value_error
            pure (commands, new_args))
      else pure ([], args)

  module _ (depth : ℕ) where
    -- `for command in self.preceding_commands: command()`
    unfoldable pub call_each : List Command → Call (Unit {0})
    call_each [] = pure tt
    call_each (command ∷ commands) = call_command depth bound command [] [] >> call_each commands

    -- The arguments of the selected command.
    unfoldable pub invocation : Namespace → List Text → Command → Invocation
    invocation ns passthrough_args command =
        let (args, kwargs) = collect_arguments ns command.parameters [] [] in
        record {
          selected_command = command;
          command_args = args;
          command_kwargs =
              if command.passthrough
              then Dict.insert (str "passthrough_args") (list_value passthrough_args) kwargs
              else kwargs;
        }

    abbrev pub is_nonempty : List Text → Bool
    is_nonempty [] = false
    is_nonempty (t ∷ ts) = true

    -- `init`, for the preceding commands and the arguments that the parser has not recognised.
    unfoldable pub init : Namespace → List Command → List Text → Call (Option Invocation)
    init ns preceding passthrough_args = elim ns.command [
      | none ↦ pure none
      | some name ↦ do
        call_each preceding
        command ← or_raise (Dict.lookup name bound) (Exception.key_error name)
        when (not command.passthrough && is_nonempty passthrough_args)
            (parser_error (message (str "unrecognized arguments: {}") (map shown passthrough_args)))
        pure (some (invocation ns passthrough_args command))
    ]

    -- The command and the lines that say that it has returned, and how long it took.
    unfoldable pub call_selected : Invocation → Call (Unit {0})
    call_selected i = do
      call_command depth bound i.selected_command i.command_args i.command_kwargs
      (λ w. cprint_to w.stderr (str "green") false (message (str "OK") []) w)
      print_magenta (str " ({})") (elapsed ∷ [])

    -- `run`, with the parser's `print_help` as a parameter.
    unfoldable pub run : Call (Unit {0}) → Namespace → Bool → Option Invocation → Call (Unit {0})
    run print_help ns has_module none = print_help
    run print_help ns has_module (some i) =
        if ns.help || not has_module then print_help else call_selected i

abbrev pub file_names : List Text
file_names = str ".plano.py" ∷ str "Planofile" ∷ str ".planofile" ∷ []

module _ (join : Text → Text → Text) (is_file : Text → Bool) (dir : Text) where
  -- The loop of `_find_file`, with `join` and `is_file` as parameters.
  unfoldable pub first_file : List Text → Option Text
  first_file [] = none
  first_file (name ∷ names) =
      let path = join dir name in if is_file path then some path else first_file names

  -- `_find_file`
  unfoldable pub find_file : Option Text
  unfolding first_file
  find_file = first_file file_names
