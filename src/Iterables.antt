-- ===== src/Iterables.antt =====
-- The iterable operations of subrepos/plano/src/plano/main.py, `unique` and `skip`, and
-- `join_path_var`, which is built from them.
pub mod Reference
pub mod Unique
pub mod PathVar
use bsord.Base.{
  Bool, option_eq, not, Option, none, some, List, [], ◌∷◌, ◌++◌, foldl, Text, text_eq, Eq, ◌==◌,
}
use bsord.Base.{join_texts, contains, filter, str, if◌then◌else◌}
use mathlib.Core.Option
use bsord.Base.Dict
use bsord.Base.Dict.{Dict}

-- The `values` argument of `skip`: a scalar stands for the tuple of itself.
pub data Skipped (A : Type 0) : Type 0 where
  scalar : A → Skipped A
  values : List A → Skipped A

module _ {A : Type 0} ⦃e : Eq A⦄ where
  -- `dict.fromkeys(iterable)`, from the entries made so far.
  unfoldable pub from_keys : Dict A (Unit {0}) → List A → Dict A (Unit {0})
  unfolding Dict.insert
  from_keys = foldl (λ d x. Dict.insert x tt d)

  unfoldable pub unique : List A → List A
  unfolding from_keys
  unique iterable = Dict.keys (from_keys [] iterable)

  abbrev pub skipped_values : Skipped A → List A
  skipped_values (scalar a) = a ∷ []
  skipped_values (values as') = as'

  unfoldable pub skip : List A → Skipped A → List A
  skip iterable skipped = filter (λ item. not (contains (skipped_values skipped) item)) iterable

-- The strings among values that are all strings.
unfoldable pub all_texts : List (Option Text) → Option (List Text)
all_texts [] = some []
all_texts (none ∷ xs) = none
all_texts (some x ∷ xs) = Option.map (λ (r : List Text). x ∷ r) (all_texts xs)

-- `join` raises a `TypeError`, here `none`, if it meets a value that is no string.
unfoldable pub join_options : Text → List (Option Text) → Option Text
unfolding join_texts all_texts
join_options sep paths = Option.map (join_texts sep) (all_texts paths)

-- `os.pathsep` is the parameter `pathsep`. A path may be `None`.
unfoldable pub join_path_var : Text → List (Option Text) → Option Text
unfolding join_options
join_path_var pathsep paths =
    join_options pathsep (unique (skip paths (values (none ∷ some [] ∷ []))))
