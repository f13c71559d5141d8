-- ===== src/Commands/Binding.antt =====
-- Which command a name is bound to.
use bsord.Base.{
  ◌≡◌, ◌∙◌, refl, true, Option, none, some, List, [], ◌∷◌, Text, text_eq, ◌==◌, arith,
  if◌then◌else◌, eq-true, eqb, ℕ, suc,
}
use bsord.Base.Dict
use bsord.Base.Dict.{Dict, lookup-insert}
use bsord.World.{World}
use bsord.Commands.{Command, bind_commands, call_command, run_command, Value}

-- The last of the commands with a name.
abbrev pub last_named : Text → List (Option Command) → Option Command
last_named name [] = none
last_named name (none ∷ vars) = last_named name vars
last_named name (some command ∷ vars) = elim (last_named name vars) [
  | some later ↦ some later
  | none ↦ if name == command.name then some command else none
]

abbrev or_bound : Option Command → Option Command → Option Command
or_bound none bound = bound
or_bound (some command) bound = some command

lookup-bind_onto :
    (name : Text) (vars : List (Option Command)) (bound : Dict Text Command)
    → Dict.lookup name (bind_commands vars bound)
      ≡ or_bound (last_named name vars) (Dict.lookup name bound)
unfolding bind_commands
lookup-bind_onto name [] bound = refl
lookup-bind_onto name (none ∷ vars) bound = lookup-bind_onto name vars bound
lookup-bind_onto name (some command ∷ vars) bound = ground (
  arith,
  lookup-bind_onto name vars (Dict.insert command.name command bound),
  lookup-insert name command.name command bound,
)

-- The commands of a module are bound by name, and of several with a name the last one is.
pub lookup-bind_commands :
    (name : Text) (vars : List (Option Command))
    → Dict.lookup name (bind_commands vars []) ≡ last_named name vars
unfolding Dict.lookup
lookup-bind_commands name vars = ground (arith, lookup-bind_onto name vars [])

last_named-name :
    (name : Text) (vars : List (Option Command)) (command : Command)
    → last_named name vars ≡ some command
    → name ≡ command.name
last_named-name name [] command e = cc
last_named-name name (none ∷ vars) command e = last_named-name name vars command e
last_named-name name (some first ∷ vars) command e =
    ground (arith, last_named-name name vars command, eq-true name first.name)

call_bound :
    (depth : ℕ) (bound : Dict Text Command) (command : Command) (args : List Value)
    (kwargs : Dict Text Value) (w : World)
    → Dict.lookup command.name bound ≡ some command
    → call_command (suc depth) bound command args kwargs w ≡ run_command command args kwargs w
unfolding call_command
call_bound depth bound command args kwargs w e = ground arith

-- A call of a command whose name a module binds runs the last of the module's commands with that
-- name, in place of the command itself or as it, if the stack has room for two calls. Commands with the same
-- identity are the same.
pub call_command-overridden :
    (depth : ℕ) (vars : List (Option Command)) (self command : Command) (args : List Value)
    (kwargs : Dict Text Value) (w : World)
    → last_named self.name vars ≡ some command
    → (eqb command.id self.id ≡ true → self ≡ command)
    → call_command (suc (suc depth)) (bind_commands vars []) self args kwargs w
      ≡ run_command command args kwargs w
unfolding call_command
call_command-overridden depth vars self command args kwargs w e same =
    let bound = bind_commands vars [] in
    let found = lookup-bind_commands self.name vars ∙ e in
    let name_eq = last_named-name self.name vars command e in
    ground (arith, call_bound depth bound command args kwargs w)
