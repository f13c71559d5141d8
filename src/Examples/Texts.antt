-- ===== src/Examples/Texts.antt =====
-- The theorems on texts, lists and listings of subrepos/plano/src/plano/main.py at concrete inputs.
use bsord.Base.{
  ◌≡◌, ◌≤◌, ◌<◌, refl, Bool, Option, none, some, List, [], ◌∷◌, Text, str, length, text_eq, ◌==◌,
  contains, join_texts,
}
use bsord.Base.Int.{pos}
use mathlib.Core.Option
use bsord.Base.{option_eq}
use bsord.Strings.{starts_with, remove_prefix, shorten, plural}
use bsord.Strings.Shortening.{shorten_ellipsis}
use bsord.Iterables.{unique, skip, join_path_var}
use bsord.Iterables.Reference.{IsUnique, first_occurrences}
use bsord.Iterables.PathVar.{join_path_var-given_texts, given_texts}
use bsord.Iterables.Unique.{unique_members}
use bsord.Listing.{list_dir, pattern_text, patterns}

prefix_removed : remove_prefix (some (str "./a")) (str "./") ≡ str "a"
unfolding remove_prefix text_eq starts_with
prefix_removed = refl

noun_ending_in_s : plural (some (str "bus")) 2 none ≡ str "busses"
unfolding plural text_eq
noun_ending_in_s = refl

-- The ellipsis is longer than the maximum, and so is the result.
too_long : shorten (some (str "abc")) (some (pos 2)) (some (str "...")) ≡ str "..."
unfolding shorten
too_long = refl

abbrev paths : List (Option Text)
paths = some (str "/a") ∷ none ∷ some [] ∷ some (str "/b") ∷ some (str "/a") ∷ []

joined : join_path_var (str ":") paths ≡ some (str "/a:/b")
unfolding join_path_var text_eq unique skip option_eq
joined = refl

abbrev names : List Text
names = str "a" ∷ str "b" ∷ str "a" ∷ []

-- Names are matched by equality.
abbrev same : Text → Text → Bool
same name pattern = name == pattern

listed :
    list_dir same (λ l. l) (pattern_text (str "a")) (patterns []) names
    ≡ some (str "a" ∷ str "a" ∷ [])
unfolding list_dir text_eq Option.bind
listed = refl

shorten_ellipsis_example :
    (3 < 2 → shorten (some (str "abc")) (some (pos 2)) (some (str "...")) ≡ str "abc")
    × (2 ≤ 3
        → (shorten (some (str "abc")) (some (pos 2)) (some (str "...")) ≡ str "...")
          × (length (shorten (some (str "abc")) (some (pos 2)) (some (str "..."))) ≡ 3))
shorten_ellipsis_example = shorten_ellipsis (str "abc") (str "...") 2

unique_members_example :
    IsUnique (unique names)
    × ((a : Text) → contains (unique names) a ≡ contains names a)
    × (IsUnique names → unique names ≡ names)
unique_members_example = unique_members names

join_path_var-given_texts_example :
    join_path_var (str ":") paths
    ≡ some (join_texts (str ":") (first_occurrences (given_texts paths)))
join_path_var-given_texts_example = join_path_var-given_texts (str ":") paths
