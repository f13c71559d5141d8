-- ===== src/Commands/Parameters.antt =====
-- `CommandParameter`, the names of commands and `_process_parameters` of
-- subrepos/plano/src/plano/command.py.
use bsord.Base.{
  ℕ, Bool, true, false, ◌&&◌, ◌||◌, Option, none, some, List, [], ◌∷◌, Text, text_eq, str, map,
  if◌then◌else◌, eqb, ◌==◌,
}
use bsord.Base.Dict
use bsord.Base.Dict.{Dict}
use bsord.World.{Result, ok, err, Exception}
use bsord.Commands.Values.{Value, none_value, empty_value, bool_value, value_equal, type_of}

-- `CommandParameter`
pub record CommandParameter : Type 0 where
  pub name : Text
  pub display_name : Text
  pub type : Option Text
  pub metavar : Text
  pub help : Option Text
  pub short_option : Option Text
  pub default : Value
  pub positional : Option Bool
  pub optional : Bool
  pub multiple : Bool

-- `text.replace("_", "-")`
abbrev pub hyphens : Text → Text
hyphens t = map (λ c. if eqb c b'_' then b'-' else c) t

-- A character before what is left of a text is stripped if nothing is left of it.
abbrev pub strip_before : ℕ → Text → Text
strip_before c [] = if eqb c b'_' then [] else c ∷ []
strip_before c (d ∷ t) = c ∷ d ∷ t

-- `text.rstrip("_")`
unfoldable pub rstrip : Text → Text
rstrip [] = []
rstrip (c ∷ t) = strip_before c (rstrip t)

-- The name of a command whose decorator gives none, from its function's name.
unfoldable pub default_name : Text → Text
unfolding rstrip
default_name function_name = hyphens (rstrip function_name)

-- `CommandParameter(name)`, with `str.upper` as the parameter `upper`.
unfoldable pub new_parameter : (Text → Text) → Text → CommandParameter
new_parameter upper name = record {
  name = name;
  display_name = hyphens name;
  type = none;
  metavar = upper (hyphens name);
  help = none;
  short_option = none;
  default = none_value;
  positional = none;
  optional = false;
  multiple = false;
}

-- `inspect.Parameter.kind`
pub data ParameterKind : Type 0 where
  positional_only positional_or_keyword var_positional keyword_only var_keyword : ParameterKind

-- `inspect.Parameter`
pub record SignatureParameter : Type 0 where
  pub name : Text
  pub kind : ParameterKind
  pub default : Value

-- `sparam.default is sparam.empty`
abbrev pub is_empty : Value → Bool
is_empty empty_value = true
is_empty _ = false

-- `if cparam.positional is None: cparam.positional = True`
abbrev pub make_positional : CommandParameter → CommandParameter
make_positional cparam = record cparam {
  positional = elim cparam.positional [ none ↦ some true | some b ↦ some b ];
}

abbrev pub make_optional : Value → CommandParameter → CommandParameter
make_optional default cparam = record cparam { optional = true; default = default }

-- `if cparam.type is None and cparam.default not in (None, False): ...`
unfoldable pub infer_type : CommandParameter → CommandParameter
unfolding value_equal
infer_type cparam = elim cparam.type [
  | some t ↦ cparam
  | none ↦
      if value_equal cparam.default none_value || value_equal cparam.default (bool_value false)
      then cparam
      else record cparam { type = some (type_of cparam.default) }
]

-- The cases of the loop over a function's signature. `**kwargs` makes no parameter. The class of a
-- signature's parameter has no `positional`, so a positional-only one is an `AttributeError`.
unfoldable pub derive_parameter :
    SignatureParameter → CommandParameter → Result (Option CommandParameter)
unfolding infer_type
derive_parameter sparam cparam = elim sparam.kind [
  | positional_only ↦ err (Exception.other (str "AttributeError"))
  | positional_or_keyword ↦ ok (
      some (
        infer_type (
          if is_empty sparam.default
          then make_positional cparam
          else make_optional sparam.default cparam)))
  | var_positional ↦ ok (some (infer_type (record (make_positional cparam) { multiple = true })))
  | keyword_only ↦ ok (some (infer_type (make_optional sparam.default cparam)))
  | var_keyword ↦ ok none
]

abbrev pub with_default {ℓ} : {A : Type ℓ} → Option A → A → A
with_default none a = a
with_default (some b) a = b

abbrev pub add_parameter :
    Option CommandParameter → Dict Text CommandParameter → Dict Text CommandParameter
add_parameter none out = out
add_parameter (some cparam) out = Dict.insert cparam.name cparam out

-- `{x.name: x for x in nvl(cparams, ())}`
unfoldable pub by_name :
    List CommandParameter → Dict Text CommandParameter → Dict Text CommandParameter
unfolding Dict.insert
by_name [] out = out
by_name (cparam ∷ cparams) out = by_name cparams (Dict.insert cparam.name cparam out)

abbrev pub takes_anything : List SignatureParameter → Bool
takes_anything (a ∷ b ∷ []) = (a.name == str "args") && (b.name == str "kwargs")
takes_anything _ = false

module _ (upper : Text → Text) where
  -- The loop, with the parameters that are out so far.
  unfoldable pub derive_parameters :
      Dict Text CommandParameter
      → List SignatureParameter
      → Dict Text CommandParameter
      → Result (Dict Text CommandParameter)
  derive_parameters cparams_in [] out = ok out
  derive_parameters cparams_in (sparam ∷ sparams) out =
      let cparam =
        with_default (Dict.lookup sparam.name cparams_in) (new_parameter upper sparam.name) in
      elim (derive_parameter sparam cparam) [
        | err e ↦ err e
        | ok derived ↦ derive_parameters cparams_in sparams (add_parameter derived out)
      ]

  -- `_process_parameters`
  unfoldable pub process_parameters :
      List CommandParameter → List SignatureParameter → Result (Dict Text CommandParameter)
  process_parameters cparams sparams =
      if takes_anything sparams
      then ok (by_name cparams [])
      else derive_parameters (by_name cparams []) sparams []
