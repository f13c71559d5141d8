-- ===== src/Iterables/PathVar.antt =====
-- `join_path_var` of subrepos/plano/src/plano/main.py.
use bsord.Base.{
  ◌≡◌, refl, ap, ◌∙◌, Option, none, some, List, [], ◌∷◌, arith, Text, text_eq, option_eq, map,
}
use bsord.Base.{join_texts}
use bsord.Iterables.{skip, values, all_texts, join_path_var}
use bsord.Iterables.Reference.{first_occurrences, drop_item}
use bsord.Iterables.Unique.{unique-first_occurrences}

-- The texts among the paths that are not empty.
unfoldable pub given_texts : List (Option Text) → List Text
given_texts [] = []
given_texts (none ∷ paths) = given_texts paths
given_texts (some [] ∷ paths) = given_texts paths
given_texts (some (c ∷ s) ∷ paths) = (c ∷ s) ∷ given_texts paths

skip-given_texts :
    (paths : List (Option Text))
    → skip paths (values (none ∷ some [] ∷ [])) ≡ map some (given_texts paths)
unfolding skip given_texts
skip-given_texts [] = refl
skip-given_texts (none ∷ paths) = ground (arith, skip-given_texts paths)
skip-given_texts (some [] ∷ paths) = ground (arith, skip-given_texts paths)
skip-given_texts (some (c ∷ s) ∷ paths) = ground (arith, skip-given_texts paths)

drop_item-map :
    (x : Text) (xs : List Text) → drop_item (some x) (map some xs) ≡ map some (drop_item x xs)
drop_item-map x [] = refl
drop_item-map x (y ∷ xs) = ground (arith, drop_item-map x xs)

first_occurrences-map :
    (xs : List Text) → first_occurrences (map some xs) ≡ map some (first_occurrences xs)
unfolding first_occurrences
first_occurrences-map [] = refl
first_occurrences-map (x ∷ xs) =
    ap (λ l. some x ∷ l)
      (ap (drop_item (some x)) (first_occurrences-map xs) ∙ drop_item-map x (first_occurrences xs))

all_texts-map : (xs : List Text) → all_texts (map some xs) ≡ some xs
unfolding all_texts
all_texts-map [] = refl
all_texts-map (x ∷ xs) = rw (all_texts-map xs)

-- `join_path_var` never raises: it joins, by the path separator, the arguments that are neither
-- `None` nor empty, each where it occurs first.
pub join_path_var-given_texts :
    (pathsep : Text) (paths : List (Option Text))
    → join_path_var pathsep paths
      ≡ some (join_texts pathsep (first_occurrences (given_texts paths)))
unfolding join_path_var
join_path_var-given_texts pathsep paths = rw (
  skip-given_texts paths,
  unique-first_occurrences (map some (given_texts paths)),
  first_occurrences-map,
  all_texts-map,
)
