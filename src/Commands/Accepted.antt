-- ===== src/Commands/Accepted.antt =====
-- The form of what `_process_commands` of subrepos/plano/src/plano/command.py tells argparse: names
-- and settings that the documentation of `add_argument` lets stand together in one call. Whether two
-- options of one parser have the same name, as a parameter `help` and the option `--help`, is left out.
use bsord.Base.{
  ℕ, ◌≡◌, refl, ◌∙◌, Bool, true, false, not, ◌&&◌, ◌||◌, Option, none, some, List, [], ◌∷◌, Text,
  text_eq, map, All, all, eqb, arith, Bool-cases, inl, inr, ◌==◌,
}
use bsord.Base.Dict.{Dict, keys, insert, NodupKeys, NodupKeys-insert, contains-keys}
use bsord.Iterables.Reference.{IsUnique}
use bsord.Commands.{Command, CommandParameter, Value, bind_commands}
use bsord.Commands.Parser.{
  Argument, ArgumentCount, single, Subparser, values, flag_args, add_argument, capitalize_help,
  process_command, process_commands,
}

-- A name that argparse takes for that of an option.
abbrev pub is_option : Text → Bool
is_option [] = false
is_option (c ∷ name) = eqb c b'-'

abbrev is_absent {ℓ} : {A : Type ℓ} → Option A → Bool
is_absent none = true
is_absent (some a) = false

abbrev is_single : ArgumentCount → Bool
is_single single = true
is_single _ = false

-- An option has names that are all an option's; a positional argument has one name and no `dest`.
abbrev fits_names : List Text → Option Text → Bool
fits_names [] dest = false
fits_names (name ∷ []) dest = is_option name || is_absent dest
fits_names (name ∷ other ∷ names) dest = all is_option (name ∷ other ∷ names)

-- The action "store_true" takes neither a type nor a `metavar` nor a count.
abbrev fits_action : Argument → Bool
fits_action a =
    not a.store_true
    || ((is_absent a.type && is_absent a.metavar) && (is_single a.count && not a.appends))

-- The argument's names and its settings may stand together in one call of `add_argument`.
abbrev pub IsAccepted : Argument → Type 0
IsAccepted a = (fits_names a.names a.dest ≡ true) × (fits_action a ≡ true)

-- A parameter whose name is no option's.
abbrev pub IsNamed : CommandParameter → Type 0
IsNamed param = is_option param.name ≡ false

add_argument-IsAccepted :
    (repr_text : Value → Text) (param : CommandParameter)
    → IsNamed param
    → IsAccepted (add_argument repr_text param)
unfolding add_argument flag_args
add_argument-IsAccepted repr_text param named = ground arith

capitalize_help-IsAccepted :
    (upper : ℕ → Text) (a : Argument) → IsAccepted a → IsAccepted (capitalize_help upper a)
unfolding capitalize_help
capitalize_help-IsAccepted upper a accepted = ground arith

-- A command whose parameters' names are no options'.
abbrev pub HasNamed : Command → Type 0
HasNamed command = All IsNamed (values command.parameters)

abbrev pub IfCommand : Option Command → Type 0
IfCommand none = Unit
IfCommand (some command) = HasNamed command

-- What holds of each bound command: its key is its name, and its parameters are named.
abbrev IsBound : Text × Command → Type 0
IsBound (name, command) = (name ≡ command.name) × HasNamed command

AllBound-insert :
    (command : Command) (bound : Dict Text Command)
    → HasNamed command
    → All IsBound bound
    → All IsBound (insert command.name command bound)
unfolding insert
AllBound-insert command [] h hs = ((refl, h), tt)
AllBound-insert command ((name, other) ∷ bound) h (here, hs) =
    elim (Bool-cases (command.name == name)) [
      | inl same ↦ rw same ((refl, h), hs)
      | inr different ↦ rw different (here, AllBound-insert command bound h hs)
    ]

bind_commands-AllBound :
    (vars : List (Option Command)) (bound : Dict Text Command)
    → All IfCommand vars
    → All IsBound bound × NodupKeys bound
    → All IsBound (bind_commands vars bound) × NodupKeys (bind_commands vars bound)
unfolding bind_commands
bind_commands-AllBound [] bound hs b = b
bind_commands-AllBound (none ∷ vars) bound (h, hs) b = bind_commands-AllBound vars bound hs b
bind_commands-AllBound (some command ∷ vars) bound (h, hs) (b, u) =
    bind_commands-AllBound vars (insert command.name command bound) hs
      (AllBound-insert command bound h b, NodupKeys-insert command.name command bound u)

NodupKeys-IsUnique : (bound : Dict Text Command) → NodupKeys bound → IsUnique (keys bound)
NodupKeys-IsUnique [] u = tt
NodupKeys-IsUnique ((name, command) ∷ bound) (fresh, u) =
    (contains-keys name bound ∙ fresh, NodupKeys-IsUnique bound u)

module _ (upper : ℕ → Text) (repr_text : Value → Text) where
  arguments-AreAccepted :
      (params : List CommandParameter)
      → All IsNamed params
      → All IsAccepted (map (λ param. capitalize_help upper (add_argument repr_text param)) params)
  arguments-AreAccepted [] h = tt
  arguments-AreAccepted (param ∷ params) (h, hs) = (
    capitalize_help-IsAccepted upper (add_argument repr_text param)
        (add_argument-IsAccepted repr_text param h),
    arguments-AreAccepted params hs,
  )

  module _ (texts : Command → Option Text × Option Text) where
    process_commands-AreAccepted :
        (bound : Dict Text Command)
        → All IsBound bound
        → (map (λ (p : Subparser). p.name) (process_commands upper repr_text texts bound)
            ≡ keys bound)
          × All
              (λ (p : Subparser). All IsAccepted p.arguments)
              (process_commands upper repr_text texts bound)
    unfolding process_commands process_command
    process_commands-AreAccepted [] h = (refl, tt)
    process_commands-AreAccepted ((name, command) ∷ bound) ((e, h), hs) =
        let (names, accepted) = process_commands-AreAccepted bound hs in
        (cc (e, names), (arguments-AreAccepted (values command.parameters) h, accepted))

    -- If no parameter of a module's commands has the name of an option, then of the commands that are
    -- bound from the module no two are told to argparse by the same name, and each of their arguments
    -- has names and settings that may stand together: only names of options or one other name without
    -- a `dest`, and no type, `metavar` or count beside the action "store_true".
    pub process_commands-IsAccepted :
        (vars : List (Option Command))
        → All IfCommand vars
        → let parsers = process_commands upper repr_text texts (bind_commands vars []) in
          IsUnique (map (λ (p : Subparser). p.name) parsers)
          × All (λ (p : Subparser). All IsAccepted p.arguments) parsers
    process_commands-IsAccepted vars h =
        let (bound, u) = bind_commands-AllBound vars [] h (tt, tt) in
        let (names, accepted) = process_commands-AreAccepted (bind_commands vars []) bound in
        (rw names (NodupKeys-IsUnique (bind_commands vars []) u), accepted)
