-- ===== src/Commands/Values.antt =====
-- The Python values that commands take as arguments, as far as
-- subrepos/plano/src/plano/command.py looks into them.
use bsord.Base.{Bool, true, false, Option, none, some, List, [], ◌∷◌, Text, text_eq, str, eqb, ◌==◌}
use bsord.Base.Int.{ℤ, pos, negsuc}
use bsord.World.{Arg, shown, quoted, number}

-- `empty_value` is `inspect.Parameter.empty`, the default of a parameter that has none.
pub data Value : Type 0 where
  none_value empty_value : Value
  bool_value : Bool → Value
  int_value : ℤ → Value
  text_value : Text → Value
  list_value : List Text → Value

-- A Boolean is a number in Python.
abbrev numeral : Value → Option ℤ
numeral (bool_value true) = some (pos 1)
numeral (bool_value false) = some (pos 0)
numeral (int_value i) = some i
numeral _ = none

abbrev numeral_equal : Option ℤ → Option ℤ → Bool
numeral_equal (some (pos m)) (some (pos n)) = eqb m n
numeral_equal (some (negsuc m)) (some (negsuc n)) = eqb m n
numeral_equal _ _ = false

abbrev list_equal : List Text → List Text → Bool
list_equal [] [] = true
list_equal (x ∷ xs) (y ∷ ys) = elim (x == y) [ true ↦ list_equal xs ys | false ↦ false ]
list_equal _ _ = false

-- `a == b`
unfoldable pub value_equal : Value → Value → Bool
value_equal none_value none_value = true
value_equal empty_value empty_value = true
value_equal (text_value a) (text_value b) = a == b
value_equal (list_value a) (list_value b) = list_equal a b
value_equal a b = numeral_equal (numeral a) (numeral b)

-- `type(value).__name__`; `inspect.Parameter.empty` is a class.
abbrev pub type_of : Value → Text
type_of none_value = str "NoneType"
type_of empty_value = str "type"
type_of (bool_value b) = str "bool"
type_of (int_value i) = str "int"
type_of (text_value t) = str "str"
type_of (list_value ts) = str "list"

abbrev reprs : List Text → List Arg
reprs [] = []
reprs (t ∷ ts) = quoted t ∷ reprs ts

-- `repr(value)`. Of a list each member is kept as an argument of its own.
abbrev pub repr : Value → List Arg
repr none_value = shown (str "None") ∷ []
repr empty_value = shown (str "<class 'inspect._empty'>") ∷ []
repr (bool_value true) = shown (str "True") ∷ []
repr (bool_value false) = shown (str "False") ∷ []
repr (int_value i) = number i ∷ []
repr (text_value t) = quoted t ∷ []
repr (list_value ts) = reprs ts
