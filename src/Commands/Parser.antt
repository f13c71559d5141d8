-- ===== src/Commands/Parser.antt =====
-- What `_process_commands` of subrepos/plano/src/plano/command.py tells argparse of each command, and
-- the help text and the description that `command` gives it. `upper` is `str.upper` of one
-- character and `repr_text` the `repr` of a value.
use bsord.Base.{
  ℕ, Bool, true, false, not, ◌||◌, Option, none, some, List, [], ◌∷◌, ◌++◌, Text, text_eq, str, map,
  split_on, if◌then◌else◌,
}
use bsord.Base.Dict
use bsord.Base.Dict.{Dict}
use bsord.Strings.{capitalize}
use bsord.Commands.{Command, CommandParameter, Value, none_value, bool_value, value_equal}

-- `nargs`: not given, "*" or "?".
pub data ArgumentCount : Type 0 where
  single any_number at_most_one : ArgumentCount

-- The arguments of `add_argument`.
pub record Argument : Type 0 where
  pub names : List Text
  pub dest : Option Text
  pub metavar : Option Text
  pub type : Option Text
  pub help : Option Text
  pub count : ArgumentCount
  pub default : Value
  pub store_true : Bool
  -- `action="append"`
  pub appends : Bool

-- A parser for one command.
pub record Subparser : Type 0 where
  pub name : Text
  pub help : Option Text
  pub add_help : Bool
  pub description : Option Text
  pub arguments : List Argument

-- `_command_help`
abbrev pub command_help_texts : Dict Text Text
command_help_texts =
    (str "build", str "Build artifacts from source")
    ∷ (str "clean", str "Clean up the source tree")
    ∷ (str "dist", str "Generate distribution artifacts")
    ∷ (str "install", str "Install the built artifacts on your system")
    ∷ (str "test", str "Run the tests")
    ∷ []

abbrev first_line : List Text → Text
first_line [] = []
first_line (line ∷ lines) = line

-- `nvl(value, replacement)` of a replacement that may be `None` too.
abbrev or_parent : Option Text → Option Text → Option Text
or_parent none replacement = replacement
or_parent (some value) replacement = some value

-- `self.help` and `self.description` of a command with a name and perhaps a documentation, whose
-- parent's are given, or `None` for a command that has no parent.
unfoldable pub help_and_description :
    Text → Option Text → Option Text × Option Text → Option Text × Option Text
unfolding Dict.lookup split_on
help_and_description name none (help, description) =
    let own = Dict.lookup name command_help_texts in (or_parent own help, or_parent own description)
help_and_description name (some doc) (help, description) =
    (some (first_line (split_on b'\n' doc)), some doc)

abbrev is_true : Option Bool → Bool
is_true none = false
is_true (some b) = b

-- `nargs` of a positional parameter.
abbrev pub argument_count : CommandParameter → ArgumentCount
argument_count param =
    if param.multiple then any_number else if param.optional then at_most_one else single

-- The default of a positional parameter, which is told only of an optional one.
abbrev positional_default : CommandParameter → Value
positional_default param =
    if param.multiple || not param.optional then none_value else param.default

unfoldable pub positional_argument : CommandParameter → Argument
positional_argument param = record {
  names = param.name ∷ [];
  dest = none;
  metavar = some param.metavar;
  type = param.type;
  help = param.help;
  count = argument_count param;
  default = positional_default param;
  store_true = false;
  appends = false;
}

-- `flag_args`
unfoldable pub flag_args : CommandParameter → List Text
flag_args param =
    (elim param.short_option [ none ↦ [] | some short ↦ (b'-' ∷ short) ∷ [] ])
    ++ ((str "--" ++ param.display_name) ∷ [])

-- `param.default is False`, which 0 is not.
abbrev pub is_false : Value → Bool
is_false (bool_value false) = true
is_false _ = false

module _ (repr_text : Value → Text) where
  -- The help text of an option, with its default unless that is equal to `None` or `False`.
  unfoldable pub flag_help : CommandParameter → Option Text
  unfolding value_equal
  flag_help param =
      if value_equal param.default none_value || value_equal param.default (bool_value false)
      then param.help
      else elim param.help [
        | none ↦ some (str "Default value is " ++ repr_text param.default)
        | some help ↦ some (help ++ (str " (default " ++ (repr_text param.default ++ str ")")))
      ]

  unfoldable pub flag_argument : CommandParameter → Argument
  unfolding flag_args flag_help
  flag_argument param = record {
    names = flag_args param;
    dest = some param.name;
    metavar = if is_false param.default then none else some param.metavar;
    type = if is_false param.default then none else param.type;
    help = flag_help param;
    count = single;
    default = param.default;
    store_true = is_false param.default;
    appends = false;
  }

  unfoldable pub add_argument : CommandParameter → Argument
  unfolding positional_argument flag_argument
  add_argument param =
      if is_true param.positional then positional_argument param else flag_argument param

module _ (upper : ℕ → Text) where
  -- `_capitalize_help`: an empty help text stays as it is.
  unfoldable pub capitalize_help : Argument → Argument
  unfolding capitalize
  capitalize_help argument = elim argument.help [
    | none ↦ argument
    | some help ↦ record argument { help = some (capitalize upper (some help)) }
  ]

abbrev pub values : Dict Text CommandParameter → List CommandParameter
values [] = []
values ((name, param) ∷ params) = param ∷ values params

module _ (upper : ℕ → Text) (repr_text : Value → Text) where
  -- One round of the loop of `_process_commands`, given the help text and the description.
  unfoldable pub process_command : Option Text → Option Text → Command → Subparser
  unfolding add_argument capitalize_help
  process_command help description command = record {
    name = command.name;
    help = if command.hidden then some (str "[internal]") else help;
    add_help = not command.passthrough;
    description = or_parent description help;
    arguments =
        map (λ param. capitalize_help upper (add_argument repr_text param))
          (values command.parameters);
  }

  -- `_process_commands`
  unfoldable pub process_commands :
      (Command → Option Text × Option Text) → Dict Text Command → List Subparser
  unfolding process_command
  process_commands texts [] = []
  process_commands texts ((name, command) ∷ bound) =
      process_command (texts command).0 (texts command).1 command ∷ process_commands texts bound
