-- ===== src/Commands/Signatures.antt =====
-- What `_process_parameters` makes of a function's signature.
use bsord.Base.{
  ◌≡◌, ◌∙◌, refl, sym, ap, Bool, true, false, not, Option, none, some, List, [], ◌∷◌, ◌++◌, Text,
  text_eq, arith, if◌then◌else◌, Option-cases, Bool-cases, inl, inr, ◌==◌, filter, map, All,
  eq-true,
}
use mathlib.Core.Path.{subst}
use mathlib.Core.List.{append-nil, append_assoc}
use bsord.Base.Dict
use bsord.Base.Dict.{Dict, keys, lookup-insert, lookup-nil}
use bsord.World.{Result, ok, err}
use bsord.Commands.{
  CommandParameter, SignatureParameter, ParameterKind, derive_parameter, derive_parameters,
  process_parameters, by_name, add_parameter, new_parameter, takes_anything, with_default,
}
use bsord.Commands.Parameters.{infer_type, is_empty, make_positional, make_optional}

abbrev pub is_var_keyword : SignatureParameter → Bool
is_var_keyword s = elim s.kind [ ParameterKind.var_keyword ↦ true | _ ↦ false ]

abbrev pub is_positional_only : SignatureParameter → Bool
is_positional_only s = elim s.kind [ ParameterKind.positional_only ↦ true | _ ↦ false ]

-- The names of the parameters that become parameters of the command.
abbrev pub declared : List SignatureParameter → List Text
declared sparams = map (λ s. s.name) (filter (λ s. not (is_var_keyword s)) sparams)

-- The names of a signature are different, and none of its parameters is positional-only.
abbrev pub WellFormed : List SignatureParameter → Type 0
WellFormed [] = Unit
WellFormed (s ∷ ss) =
    (is_positional_only s ≡ false) × All (λ t. (t.name == s.name) ≡ false) ss × WellFormed ss

keys-insert :
    (k : Text) (p : CommandParameter) (d : Dict Text CommandParameter)
    → Dict.has k d ≡ false
    → keys (Dict.insert k p d) ≡ keys d ++ k ∷ []
unfolding Dict.has Dict.insert
keys-insert k p [] fresh = refl
keys-insert k p (_ ∷ d) fresh = ground (arith, keys-insert k p d)

-- A dict of parameters by name.
abbrev Named : Dict Text CommandParameter → Type 0
Named d = (k : Text) (c : CommandParameter) → Dict.lookup k d ≡ some c → c.name ≡ k

by_name-Named :
    (cparams : List CommandParameter) (out : Dict Text CommandParameter)
    → Named out
    → Named (by_name cparams out)
unfolding by_name
by_name-Named [] out h = h
by_name-Named (cparam ∷ cparams) out h =
    by_name-Named cparams (Dict.insert cparam.name cparam out) (λ k c e.
      ground (arith, lookup-insert k cparam.name cparam out, eq-true k cparam.name, h k c))

infer_type-name : (c : CommandParameter) → (infer_type c).name ≡ c.name
unfolding infer_type
infer_type-name c = ground arith

-- The parameter that is derived from one that is not positional-only.
abbrev derived_of : SignatureParameter → CommandParameter → CommandParameter
derived_of s c = infer_type (elim s.kind [
  | ParameterKind.positional_or_keyword ↦
      if is_empty s.default then make_positional c else make_optional s.default c
  | ParameterKind.var_positional ↦ record (make_positional c) { multiple = true }
  | _ ↦ make_optional s.default c
])

derived_of-name : (s : SignatureParameter) (c : CommandParameter) → (derived_of s c).name ≡ c.name
derived_of-name s c =
    infer_type-name (elim s.kind [
      | ParameterKind.positional_or_keyword ↦
          if is_empty s.default then make_positional c else make_optional s.default c
      | ParameterKind.var_positional ↦ record (make_positional c) { multiple = true }
      | _ ↦ make_optional s.default c
    ])
    ∙ ground arith

derive_parameter_cases :
    (s : SignatureParameter) (c : CommandParameter)
    → is_positional_only s ≡ false
    → (d : CommandParameter) × (d.name ≡ c.name)
      × (derive_parameter s c ≡ ok (if is_var_keyword s then none else some d))
unfolding derive_parameter
derive_parameter_cases s c h = (derived_of s c, derived_of-name s c, ground arith)

declared-skip :
    (s : SignatureParameter) (ss : List SignatureParameter)
    → is_var_keyword s ≡ true
    → declared (s ∷ ss) ≡ declared ss
declared-skip s ss h = ground arith

declared-cons :
    (s : SignatureParameter) (ss : List SignatureParameter)
    → is_var_keyword s ≡ false
    → declared (s ∷ ss) ≡ s.name ∷ declared ss
declared-cons s ss h = ground arith

keys-insert_named :
    (j k : Text) (p : CommandParameter) (d : Dict Text CommandParameter)
    → j ≡ k
    → Dict.has k d ≡ false
    → keys (Dict.insert j p d) ≡ keys d ++ k ∷ []
keys-insert_named j k p d e fresh =
    subst (λ i. keys (Dict.insert i p d) ≡ keys d ++ k ∷ []) (sym e) (keys-insert k p d fresh)

source-name :
    (upper : Text → Text) (cin : Dict Text CommandParameter) (k : Text)
    → Named cin
    → (with_default (Dict.lookup k cin) (new_parameter upper k)).name ≡ k
unfolding new_parameter
source-name upper cin k named = elim (Option-cases (Dict.lookup k cin)) [
  | inl missing ↦ ground arith
  | inr (c, found) ↦ ground (arith, named k c found)
]

Absent : Dict Text CommandParameter → List SignatureParameter → Type 0
Absent out = All (λ s. Dict.has s.name out ≡ false)

Absent-insert :
    (k : Text) (p : CommandParameter) (out : Dict Text CommandParameter)
    (ss : List SignatureParameter)
    → Absent out ss
    → All (λ t. (t.name == k) ≡ false) ss
    → Absent (Dict.insert k p out) ss
unfolding Absent
Absent-insert k p out [] absent others = tt
Absent-insert k p out (s ∷ ss) (a, absent) (o, others) =
    (ground (arith, Dict.has-insert s.name k p out), Absent-insert k p out ss absent others)

Absent-nil : (ss : List SignatureParameter) → Absent [] ss
unfolding Absent Dict.has
Absent-nil [] = tt
Absent-nil (s ∷ ss) = (refl, Absent-nil ss)

abbrev continue :
    (Text → Text)
    → Dict Text CommandParameter
    → List SignatureParameter
    → Dict Text CommandParameter
    → Result (Option CommandParameter)
    → Result (Dict Text CommandParameter)
continue upper cin ss out (ok derived) = derive_parameters upper cin ss (add_parameter derived out)
continue upper cin ss out (err e) = err e

Derived :
    (Text → Text)
    → Dict Text CommandParameter
    → List SignatureParameter
    → Dict Text CommandParameter
    → Type 0
Derived upper cin ss out =
    (d : Dict Text CommandParameter) × (derive_parameters upper cin ss out ≡ ok d)
    × (keys d ≡ keys out ++ declared ss)

derive_parameters-Derived :
    (upper : Text → Text) (cin : Dict Text CommandParameter) (ss : List SignatureParameter)
    (out : Dict Text CommandParameter)
    → Named cin
    → WellFormed ss
    → Absent out ss
    → Derived upper cin ss out
unfolding derive_parameters Absent Derived
derive_parameters-Derived upper cin [] out named well absent =
    (out, refl, sym (append-nil (keys out)))
derive_parameters-Derived upper cin (s ∷ ss) out named (po, others, well) (new, absent) =
    let c = with_default (Dict.lookup s.name cin) (new_parameter upper s.name) in
    let (d, same, de) = derive_parameter_cases s c po in
    let name_eq = same ∙ source-name upper cin s.name named in
    elim (Bool-cases (is_var_keyword s)) [
      | inl kw ↦
          let (r, re, rk) = derive_parameters-Derived upper cin ss out named well absent in
          (
            r,
            ap (continue upper cin ss out) (de ∙ ap (λ b. ok (if b then none else some d)) kw) ∙ re,
            rk ∙ sym (ap (λ names. keys out ++ names) (declared-skip s ss kw)),
          )
      | inr other ↦
          let out' = Dict.insert d.name d out in
          let absent' =
            subst (λ k. Absent (Dict.insert k d out) ss) (sym name_eq)
              (Absent-insert s.name d out ss absent others) in
          let (r, re, rk) = derive_parameters-Derived upper cin ss out' named well absent' in
          (
            r,
            ap (continue upper cin ss out) (de ∙ ap (λ b. ok (if b then none else some d)) other)
                ∙ re,
            rk
                ∙ (ap (λ names. names ++ declared ss)
                      (keys-insert_named d.name s.name d out name_eq new)
                    ∙ (append_assoc (keys out) (s.name ∷ []) (declared ss)
                        ∙ sym (ap (λ names. keys out ++ names) (declared-cons s ss other)))),
          )
    ]

-- A well-formed signature, unless it is that of `(*args, **kwargs)`, gives a command a parameter
-- for each of its own but `**kwargs`, in their order, whatever parameters the decorator lists.
pub process_parameters-declared :
    (upper : Text → Text) (cparams : List CommandParameter) (sparams : List SignatureParameter)
    → WellFormed sparams
    → takes_anything sparams ≡ false
    → (d : Dict Text CommandParameter) × (process_parameters upper cparams sparams ≡ ok d)
      × (keys d ≡ declared sparams)
unfolding process_parameters Derived Dict.lookup
process_parameters-declared upper cparams sparams well named =
    let cin = by_name cparams [] in
    let (d, de, dk) =
      derive_parameters-Derived upper cin sparams [] (by_name-Named cparams [] (λ k c e. cc)) well
        (Absent-nil sparams) in
    (d, rw (named, de), dk)
