-- ===== src/Values.antt =====
-- The value operations of subrepos/plano/src/plano/main.py and its unique ids. The 16 bytes of
-- `uuid.uuid4()` are the parameter `uuid_bytes`, and `template.format(value)` is `format`.
pub mod Ids
use Prim.Native.Nat.{◌/◌, ◌%◌}
use bsord.Base.{
  ℕ, ◌+◌, Bool, true, false, not, ◌&&◌, Option, none, some, List, [], ◌∷◌, Text, text_eq, ◌==◌, str,
  leb, ltb, take, if◌then◌else◌,
}
use bsord.Base.Dict
use bsord.Base.Dict.{Dict}
use bsord.Base.Int.{ℤ}
use bsord.World.{Call, message, pure, assert, ◌>>=◌, ◌>>◌}

-- A value, whose parts are not looked into.
pub data AnyValue (A : Type 0) : Type 0 where
  none_value : AnyValue A
  text_value : Text → AnyValue A
  number_value : ℤ → AnyValue A
  bool_value : Bool → AnyValue A
  tuple_value list_value : List A → AnyValue A
  dict_value : Dict Text A → AnyValue A
  object_value : A → AnyValue A

-- `nvl`
unfoldable pub nvl : {A : Type 0} → Option A → A → A
nvl none replacement = replacement
nvl (some value) replacement = value

module _ {A : Type 0} where
  -- `is_string`
  unfoldable pub is_string : AnyValue A → Bool
  is_string (text_value t) = true
  is_string _ = false

  -- `is_scalar`
  unfoldable pub is_scalar : AnyValue A → Bool
  is_scalar none_value = true
  is_scalar (text_value t) = true
  is_scalar (number_value n) = true
  is_scalar (bool_value b) = true
  is_scalar _ = false

  -- `is_empty`: the number 0 and `False` are not empty.
  unfoldable pub is_empty : AnyValue A → Bool
  is_empty none_value = true
  is_empty (text_value []) = true
  is_empty (tuple_value []) = true
  is_empty (list_value []) = true
  is_empty (dict_value []) = true
  is_empty _ = false

  -- `format_empty`
  unfoldable pub format_empty : AnyValue A → AnyValue A → AnyValue A
  unfolding is_empty
  format_empty value replacement = if is_empty value then replacement else value

  -- `format_not_empty`
  unfoldable pub format_not_empty :
      (Text → AnyValue A → Text) → AnyValue A → Option Text → AnyValue A
  unfolding is_empty
  format_not_empty format value none = value
  format_not_empty format value (some template) =
      if not (is_empty value) then text_value (format template value) else value

  -- `Namespace.__init__`, which sets the attributes one after the other.
  unfoldable pub set_attributes : Dict Text A → Dict Text A → Dict Text A
  unfolding Dict.insert
  set_attributes attributes [] = attributes
  set_attributes attributes ((name, value) ∷ kwargs) =
      set_attributes (Dict.insert name value attributes) kwargs

  -- `Namespace.__contains__`
  unfoldable pub contains_attribute : Dict Text A → Text → Bool
  unfolding Dict.has
  contains_attribute attributes key = Dict.has key attributes

-- One hexadecimal digit.
abbrev pub hex_digit : ℕ → ℕ
hex_digit n = if ltb n 10 then n + b'0' else n + 87

-- `binascii.hexlify(bytes).decode("utf-8")`
unfoldable pub hexlify : List ℕ → Text
hexlify [] = []
hexlify (b ∷ bytes) = hex_digit (b / 16) ∷ hex_digit (b % 16) ∷ hexlify bytes

-- `get_unique_id`
unfoldable pub get_unique_id : List ℕ → ℕ → Call Text
unfolding hexlify
get_unique_id uuid_bytes bytes = do
  assert (leb 1 bytes) (message [] [])
  assert (leb bytes 16) (message [] [])
  pure (hexlify (take bytes uuid_bytes))
