-- ===== src/Commands/Display.antt =====
-- The display of the arguments that the command line gives to a command.
use bsord.Base.{
  ℕ, suc, ◌≡◌, ◌∙◌, refl, sym, ap, true, false, some, List, [], ◌∷◌, ◌++◌, Text, text_eq, arith,
  if◌then◌else◌, ◌==◌, str, All, inl, inr, ◌⊎◌, length, get_elem?, length-append, map, drop,
}
use mathlib.Core.List.{append-nil, append_assoc}
use mathlib.Core.Path.{subst}
use bsord.Base.Dict
use bsord.Base.Dict.{Dict}
use bsord.World.{Call, Message, Result, ok}
use bsord.Commands.{
  Command, CommandParameter, Value, DisplayArg, display_param, display_args, collect_arguments,
  Namespace, invocation, is_positional, positional_values, with_keyword, with_default,
  display_value,
}
use bsord.Commands.Calls.{unless_default, lower_repr}

abbrev AreKeywords : Dict Text CommandParameter → Type 0
AreKeywords = All (λ item. is_positional item.1 ≡ false)

-- The positional parameters come first, one that takes several values comes last among them, and
-- none of them is named `passthrough_args`.
abbrev pub InOrder : Dict Text CommandParameter → Type 0
InOrder [] = Unit
InOrder ((k, p) ∷ params) =
    AreKeywords ((k, p) ∷ params)
    ⊎ ((is_positional p ≡ true)
        × ((p.name == str "passthrough_args") ≡ false)
        × (((p.multiple ≡ true) × AreKeywords params) ⊎ ((p.multiple ≡ false) × InOrder params)))

abbrev Displayed : Result (List DisplayArg) → Type 0
Displayed r = (ds : List DisplayArg) × (r ≡ ok ds)

display_param-keyword :
    (i : ℕ) (p : CommandParameter) (args : List Value) (kwargs : Dict Text Value)
    → is_positional p ≡ false
    → Displayed (display_param i p args kwargs)
unfolding display_param
display_param-keyword i p args kwargs h =
    let value = with_default (Dict.lookup p.name kwargs) p.default in
    (
      unless_default p value (record { key = some p.display_name; value = lower_repr value }),
      ground arith,
    )

display_args-keywords :
    (i : ℕ) (params : Dict Text CommandParameter) (args : List Value) (kwargs : Dict Text Value)
    → AreKeywords params
    → Displayed (display_args i params args kwargs)
unfolding display_args
display_args-keywords i [] args kwargs h = ([], refl)
display_args-keywords i ((k, p) ∷ params) args kwargs (h, hs) =
    let (xs, xe) = display_param-keyword i p args kwargs h in
    let (ys, ye) = display_args-keywords (suc i) params args kwargs hs in (xs ++ ys, rw (xe, ye))

collect_arguments-append :
    (ns : Namespace) (params : Dict Text CommandParameter) (args : List Value)
    (kwargs : Dict Text Value)
    → (more : List Value) × ((collect_arguments ns params args kwargs).0 ≡ args ++ more)
unfolding collect_arguments
collect_arguments-append ns [] args kwargs = ([], sym (append-nil args))
collect_arguments-append ns ((_, p) ∷ params) args kwargs =
    let given = positional_values ns p in
    let (more, e) = collect_arguments-append ns params (args ++ given) (with_keyword ns p kwargs) in
    (given ++ more, e ∙ append_assoc args given more)

get_elem?-append :
    (args more : List Value) (value : Value)
    → get_elem? ((args ++ value ∷ []) ++ more) (length args) ≡ some value
get_elem?-append [] more value = refl
get_elem?-append (a ∷ args) more value = get_elem?-append args more value

display_param-single :
    (p : CommandParameter) (args more : List Value) (value : Value) (kwargs : Dict Text Value)
    → is_positional p ≡ true
    → p.multiple ≡ false
    → Displayed (display_param (length args) p ((args ++ value ∷ []) ++ more) kwargs)
unfolding display_param
display_param-single p args more value kwargs h single = (
  if p.optional then unless_default p value (display_value value) else display_value value ∷ [],
  ground (arith, get_elem?-append args more value),
)

display_param-multiple :
    (i : ℕ) (p : CommandParameter) (args : List Value) (kwargs : Dict Text Value)
    → is_positional p ≡ true
    → p.multiple ≡ true
    → Displayed (display_param i p args kwargs)
unfolding display_param
display_param-multiple i p args kwargs h several = (map display_value (drop i args), ground arith)

display_args-cons :
    (i : ℕ) (k : Text) (p : CommandParameter) (params : Dict Text CommandParameter)
    (args : List Value) (kwargs : Dict Text Value)
    → Displayed (display_param i p args kwargs)
    → Displayed (display_args (suc i) params args kwargs)
    → Displayed (display_args i ((k, p) ∷ params) args kwargs)
unfolding display_args
display_args-cons i k p params args kwargs (xs, xe) (ys, ye) = (xs ++ ys, rw (xe, ye))

positional_values-single :
    (ns : Namespace) (p : CommandParameter)
    → is_positional p ≡ true
    → (p.name == str "passthrough_args") ≡ false
    → p.multiple ≡ false
    → positional_values ns p ≡ ns.value p.name ∷ []
positional_values-single ns p h other single = ground arith

collected-Displayed :
    (ns : Namespace) (params : Dict Text CommandParameter) (args : List Value)
    (kwargs shown_kwargs : Dict Text Value)
    → InOrder params
    → Displayed
        (display_args (length args) params (collect_arguments ns params args kwargs).0 shown_kwargs)
unfolding collect_arguments
collected-Displayed ns [] args kwargs shown_kwargs h =
    display_args-keywords (length args) [] _ shown_kwargs tt
collected-Displayed ns ((k, p) ∷ params) args kwargs shown_kwargs (inl hs) =
    display_args-keywords (length args) ((k, p) ∷ params) _ shown_kwargs hs
collected-Displayed ns ((k, p) ∷ params) args kwargs shown_kwargs
      (inr (h, other, inl (several, hs))) =
    let final = (collect_arguments ns ((k, p) ∷ params) args kwargs).0 in
    display_args-cons (length args) k p params final shown_kwargs
      (display_param-multiple (length args) p final shown_kwargs h several)
      (display_args-keywords (suc (length args)) params final shown_kwargs hs)
collected-Displayed ns ((k, p) ∷ params) args kwargs shown_kwargs
      (inr (h, other, inr (single, hs))) =
    let final = (collect_arguments ns ((k, p) ∷ params) args kwargs).0 in
    let value = ns.value p.name in
    let given = positional_values-single ns p h other single in
    let kwargs' = with_keyword ns p kwargs in
    let (more, e) = collect_arguments-append ns params (args ++ value ∷ []) kwargs' in
    let final' = (collect_arguments ns params (args ++ value ∷ []) kwargs').0 in
    let final_eq = ap (λ vs. (collect_arguments ns params (args ++ vs) kwargs').0) given in
    let length_eq = length-append args (value ∷ []) ∙ omega arith in
    let rest = collected-Displayed ns params (args ++ value ∷ []) kwargs' shown_kwargs hs in
    display_args-cons (length args) k p params final shown_kwargs
      (subst (λ l. Displayed (display_param (length args) p l shown_kwargs)) (sym (final_eq ∙ e))
        (display_param-single p args more value shown_kwargs h single))
      (subst (λ l. Displayed (display_args (suc (length args)) params l shown_kwargs))
        (sym final_eq)
        (subst (λ i. Displayed (display_args i params final' shown_kwargs)) length_eq rest))

-- The arguments that `init` takes from the command line for a command with its parameters in
-- order are displayed without an error.
pub invocation-displayed :
    (parser_error : Message → Call (Unit {0})) (bound : Dict Text Command) (depth : ℕ)
    (ns : Namespace) (passthrough_args : List Text) (command : Command)
    → InOrder command.parameters
    → let i = invocation parser_error bound depth ns passthrough_args command in
      (ds : List DisplayArg) × (display_args 0 command.parameters i.command_args i.command_kwargs
        ≡ ok ds)
unfolding invocation
invocation-displayed parser_error bound depth ns passthrough_args command h =
    let kwargs = (invocation parser_error bound depth ns passthrough_args command).command_kwargs in
    collected-Displayed ns command.parameters [] [] kwargs h
