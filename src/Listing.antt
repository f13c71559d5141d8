-- ===== src/Listing.antt =====
-- `list_dir` of subrepos/plano/src/plano/main.py, on the names that `os.listdir` gave. `fnmatch`'s
-- test of a name against a pattern is the parameter `matches`, and `sorted` the parameter `sort`.
pub mod Selection
use mathlib.Core.Option
use bsord.Base.{Bool, Option, none, some, List, [], ◌∷◌, Text, text_eq, ◌==◌, filter, if◌then◌else◌}

-- The include and exclude arguments: a single pattern stands for the tuple of itself.
pub data Patterns : Type 0 where
  pattern_text : Text → Patterns
  patterns : List Text → Patterns

abbrev pub pattern_list : Patterns → List Text
pattern_list (pattern_text p) = p ∷ []
pattern_list (patterns ps) = ps

-- `names.remove(name)`, with `none` for the `ValueError` if the name is not there.
unfoldable pub remove : Text → List Text → Option (List Text)
remove name [] = none
remove name (n ∷ names) =
    if n == name then some names else Option.map (λ (r : List Text). n ∷ r) (remove name names)

-- `for name in found: names.remove(name)`
unfoldable pub remove_all : List Text → List Text → Option (List Text)
unfolding remove
remove_all [] names = some names
remove_all (name ∷ found) names = Option.bind (remove name names) (remove_all found)

module _ (matches : Text → Text → Bool) where
  -- `fnmatch.filter(names, pattern)`
  abbrev pub fnmatch_filter : List Text → Text → List Text
  fnmatch_filter names pattern = filter (λ name. matches name pattern) names

  unfoldable pub exclude_loop : List Text → List Text → Option (List Text)
  unfolding remove_all
  exclude_loop [] names = some names
  exclude_loop (pattern ∷ exclude) names =
      Option.bind (remove_all (fnmatch_filter names pattern) names) (exclude_loop exclude)

  unfoldable pub include_loop : List Text → List Text → List Text → Option (List Text)
  unfolding exclude_loop
  include_loop [] exclude names = some names
  include_loop (pattern ∷ include) exclude names =
      Option.bind (exclude_loop exclude (fnmatch_filter names pattern))
        (include_loop include exclude)

  unfoldable pub list_dir :
      (List Text → List Text) → Patterns → Patterns → List Text → Option (List Text)
  unfolding include_loop
  list_dir sort include exclude names =
      Option.map sort (include_loop (pattern_list include) (pattern_list exclude) names)
