-- ===== src/Commands/Calls.antt =====
-- Commands, how they are bound and how they call each other: `Command` and `_bind_commands` of
-- subrepos/plano/src/plano/command.py.
use bsord.Base.{
  ℕ, zero, suc, Bool, true, false, Option, none, some, List, [], ◌∷◌, ◌++◌, Text, text_eq, str, map,
  if◌then◌else◌, eqb, length, take, drop, get_elem?, ◌-◌,
}
use bsord.Base.Dict
use bsord.Base.Dict.{Dict}
use bsord.World.{
  Call, Result, ok, err, Exception, Arg, shown, message, pure, raise, gets, modify, ◌>>=◌, ◌>>◌,
}
use bsord.Logging.{debug}
use bsord.Console.{print_to, cprint_to, with_color}
use bsord.Commands.Values.{Value, bool_value, value_equal, repr}
use bsord.Commands.Parameters.{CommandParameter, with_default}

-- A `Command` object, `id` being its identity.
pub record Command : Type 0 where
  pub id : ℕ
  pub module_name : Text
  pub name : Text
  pub parameters : Dict Text CommandParameter
  pub passthrough : Bool
  pub hidden : Bool
  pub function : List Value → Dict Text Value → Call (Unit {0})

-- `_bind_commands`: a module's values, of which those that are no command are `none`, are added to
-- the commands bound so far.
unfoldable pub bind_commands : List (Option Command) → Dict Text Command → Dict Text Command
unfolding Dict.insert
bind_commands [] bound = bound
bind_commands (none ∷ vars) bound = bind_commands vars bound
bind_commands (some command ∷ vars) bound =
    bind_commands vars (Dict.insert command.name command bound)

-- A value that is displayed, after the name of its parameter if it has one.
pub record DisplayArg : Type 0 where
  pub key : Option Text
  pub value : List Arg

abbrev pub is_positional : CommandParameter → Bool
is_positional param = elim param.positional [ none ↦ false | some b ↦ b ]

abbrev pub display_value : Value → DisplayArg
display_value value = record { key = none; value = repr value }

-- `str(value).lower()` for a Boolean, and `repr(value)` for any other value, a number equal to a
-- Boolean being written alike by both.
abbrev pub lower_repr : Value → List Arg
lower_repr (bool_value true) = shown (str "true") ∷ []
lower_repr (bool_value false) = shown (str "false") ∷ []
lower_repr value = repr value

abbrev pub unless_default : CommandParameter → Value → DisplayArg → List DisplayArg
unless_default param value display = if value_equal value param.default then [] else display ∷ []

-- What the loop of `_get_display_args` yields for the parameter at index `i`.
unfoldable pub display_param :
    ℕ → CommandParameter → List Value → Dict Text Value → Result (List DisplayArg)
unfolding value_equal Dict.lookup
display_param i param args kwargs =
    if is_positional param
    then (if param.multiple
        then ok (map display_value (drop i args))
        else (elim (get_elem? args i) [
          | none ↦ err Exception.index_error
          | some value ↦ ok (
              if param.optional
              then unless_default param value (display_value value)
              else display_value value ∷ [])
        ]))
    else (let value = with_default (Dict.lookup param.name kwargs) param.default in
        ok (
          unless_default param value
            (record { key = some param.display_name; value = lower_repr value })))

abbrev pub join_results : {A : Type 0} → Result (List A) → Result (List A) → Result (List A)
join_results (err e) more = err e
join_results (ok xs) (err e) = err e
join_results (ok xs) (ok ys) = ok (xs ++ ys)

-- `_get_display_args`
unfoldable pub display_args :
    ℕ → Dict Text CommandParameter → List Value → Dict Text Value → Result (List DisplayArg)
unfolding display_param
display_args i [] args kwargs = ok []
display_args i ((_, param) ∷ params) args kwargs =
    join_results (display_param i param args kwargs) (display_args (suc i) params args kwargs)

-- `"--" * n`
abbrev pub dashes : ℕ → Text
dashes zero = []
dashes (suc n) = b'-' ∷ b'-' ∷ dashes n

-- `app.running_commands.append(self)`, and the number of them then.
unfoldable pub push_running : Text → Call ℕ
push_running name = do
  modify (λ w. record w { running_commands = name ∷ w.running_commands })
  gets (λ w. length w.running_commands)

-- `app.running_commands.pop()`
unfoldable pub pop_running : Call (Unit {0})
pop_running w = elim w.running_commands [
  | [] ↦ (err Exception.index_error, w)
  | name ∷ rest ↦ (ok tt, record w { running_commands = rest })
]

abbrev pub of_result : {A : Type 0} → Result A → Call A
of_result r w = (r, w)

abbrev display_arg : DisplayArg → List Arg
display_arg d = elim d.key [ none ↦ d.value | some k ↦ shown k ∷ d.value ]

abbrev flat : List DisplayArg → List Arg
flat [] = []
flat (d ∷ ds) = display_arg d ++ flat ds

-- `eprint(...)`
unfoldable pub eprint : Text → List Arg → Call (Unit {0})
unfolding print_to
eprint template args w = print_to w.stderr (message template args) w

abbrev pub print_display_args : List DisplayArg → Call (Unit {0})
print_display_args [] = pure tt
print_display_args (d ∷ ds) = eprint (str " ({})") (flat (d ∷ ds))

abbrev keyword_value : Text × Value → DisplayArg
keyword_value (name, value) = record { key = some name; value = repr value }

-- The part of `__call__` before the function is called, which returns the number of dashes, halved.
unfoldable pub announce : Command → List Value → Dict Text Value → Call ℕ
unfolding push_running display_args with_color eprint
announce self args kwargs = do
  debug (
      message (str "Running command '{}:{}' {} {}") (
        shown self.module_name
        ∷ shown self.name
        ∷ flat (map display_value args ++ map keyword_value kwargs)))
  n ← push_running self.name
  displayed ← of_result (display_args 0 self.parameters args kwargs)
  (λ w.
      with_color (some (str "magenta")) false w.stderr
        (do
          eprint (str "{}> {}") (shown (dashes n) ∷ shown self.name ∷ [])
          print_display_args displayed
          eprint [] [])
        w)
  pure n

-- `cprint(text, color="magenta", file=_sys.stderr)`
abbrev pub print_magenta : Text → List Arg → Call (Unit {0})
print_magenta template args w = cprint_to w.stderr (str "magenta") false (message template args) w

-- `text[:-2]`
abbrev but_last_two : Text → Text
but_last_two t = take (length t - 2) t

-- `if app.running_commands: ...`
abbrev pub print_outer : ℕ → List Text → Call (Unit {0})
print_outer n [] = pure tt
print_outer n (name ∷ names) =
    print_magenta (str "{}| {}") (shown (but_last_two (dashes n)) ∷ shown name ∷ [])

-- The part of `__call__` after the function has returned.
unfoldable pub conclude : Command → ℕ → Call (Unit {0})
unfolding pop_running cprint_to
conclude self n = do
  print_magenta (str "<{} {}") (shown (dashes n) ∷ shown self.name ∷ [])
  pop_running
  outer ← gets (λ w. w.running_commands)
  print_outer n outer

-- `__call__` of a command that is bound to its name.
unfoldable pub run_command : Command → List Value → Dict Text Value → Call (Unit {0})
run_command self args kwargs = do
  n ← announce self args kwargs
  self.function args kwargs
  conclude self n

-- `__call__`, for an application whose bound commands are `bound`, with what is left of the
-- interpreter's stack as the depth. A command that is bound in place of another is called.
unfoldable pub call_command :
    ℕ → Dict Text Command → Command → List Value → Dict Text Value → Call (Unit {0})
call_command zero bound self args kwargs = raise (Exception.other (str "RecursionError"))
call_command (suc depth) bound self args kwargs = elim (Dict.lookup self.name bound) [
  | none ↦ raise (Exception.key_error self.name)
  | some command ↦
      let overriding = call_command depth bound command args kwargs in
      if eqb command.id self.id then run_command self args kwargs else overriding
]
