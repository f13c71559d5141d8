-- ===== src/Strings.antt =====
-- The string operations of subrepos/plano/src/plano/main.py (`remove_prefix` to `capitalize`).
-- A string argument that may be `None` is an option. `string[0].upper()` is the parameter `upper`,
-- since the upper case of one character may be several.
pub mod Affixes
pub mod Shortening
use bsord.Base.{
  ℕ, ◌-◌, ◌++◌, Bool, true, false, ◌&&◌, Option, none, some, List, [], ◌∷◌, Text, text_eq,
}
use bsord.Base.{◌==◌, str, length, take, drop, leb, eqb, if◌then◌else◌}
use bsord.Base.Int.{ℤ, ltb_int, sub_floor, slice_to}

-- `string.startswith(prefix)`
unfoldable pub starts_with : Text → Text → Bool
starts_with string prefix = take (length prefix) string == prefix

-- `string.endswith(suffix)`
unfoldable pub ends_with : Text → Text → Bool
ends_with string suffix =
    leb (length suffix) (length string) && (drop (length string - length suffix) string == suffix)

-- A string as a truth value.
abbrev pub is_true : Text → Bool
is_true [] = false
is_true (c ∷ s) = true

unfoldable pub remove_prefix : Option Text → Text → Text
remove_prefix none prefix = []
remove_prefix (some string) prefix =
    if is_true prefix && starts_with string prefix then drop (length prefix) string else string

unfoldable pub remove_suffix : Option Text → Text → Text
remove_suffix none suffix = []
remove_suffix (some string) suffix =
    if is_true suffix && ends_with string suffix
    then take (length string - length suffix) string
    else string

unfoldable pub shorten : Option Text → Option ℤ → Option Text → Text
shorten none max ellipsis = []
shorten (some string) none ellipsis = string
shorten (some string) (some max) none =
    if ltb_int (length string) max then string else slice_to string max
shorten (some string) (some max) (some ellipsis) =
    if ltb_int (length string) max
    then string
    else take (sub_floor max (length ellipsis)) (string ++ ellipsis) ++ ellipsis

-- The plural form that `plural` makes when it is given none.
unfoldable pub default_plural : Text → Text
unfolding ends_with
default_plural noun = if ends_with noun (str "s") then noun ++ str "ses" else noun ++ str "s"

-- `if noun in (None, "")` comes first, then the count.
unfoldable pub plural : Option Text → ℕ → Option Text → Text
unfolding default_plural
plural none count plural_form = []
plural (some []) count plural_form = []
plural (some (c ∷ noun)) count plural_form =
    if eqb count 1
    then c ∷ noun
    else elim plural_form [ none ↦ default_plural (c ∷ noun) | some form ↦ form ]

unfoldable pub capitalize : (ℕ → Text) → Option Text → Text
capitalize upper none = []
capitalize upper (some []) = []
capitalize upper (some (c ∷ s)) = upper c ++ s
