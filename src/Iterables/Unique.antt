-- ===== src/Iterables/Unique.antt =====
-- `unique` of subrepos/plano/src/plano/main.py.
use mathlib.Core.List.{append-nil, append_assoc}
use bsord.Base.{◌≡◌, refl, ap, ◌∙◌, sym, Bool, true, not, ◌||◌, List, [], ◌∷◌, ◌++◌, arith}
use bsord.Base.{Eq, ◌==◌, contains, filter, if◌then◌else◌, inl, inr, Bool-cases}
use bsord.Base.Dict.{Dict, keys, insert}
use bsord.Iterables.{from_keys, unique}
use bsord.Iterables.Reference.{
  first_occurrences, IsUnique, first_occurrences-IsUnique, contains-first_occurrences,
  first_occurrences_IsUnique_lem, drop_item,
}

module _ {A : Type 0} ⦃e : Eq A⦄ where
  keys-insert :
      (x : A) (d : Dict A (Unit {0}))
      → keys (insert x tt d) ≡ (if contains (keys d) x then keys d else keys d ++ x ∷ [])
  unfolding insert
  keys-insert x [] = refl
  keys-insert x ((y, v) ∷ d) = ground (arith, keys-insert x d)

  contains-snoc : (xs : List A) (x a : A) → contains (xs ++ x ∷ []) a ≡ (contains xs a || a == x)
  contains-snoc [] x a = ground arith
  contains-snoc (y ∷ xs) x a = ground (arith, contains-snoc xs x a)

  abbrev absent : List A → A → Bool
  absent ks a = not (contains ks a)

  absent-drop_item :
      (ks l : List A) (x : A)
      → contains ks x ≡ true
      → filter (absent ks) (drop_item x l) ≡ filter (absent ks) l
  absent-drop_item ks [] x h = refl
  absent-drop_item ks (y ∷ l) x h = ground (arith, absent-drop_item ks l x h)

  absent-snoc :
      (ks l : List A) (x : A)
      → filter (absent (ks ++ x ∷ [])) l ≡ filter (absent ks) (drop_item x l)
  absent-snoc ks [] x = refl
  absent-snoc ks (y ∷ l) x = ground (arith, absent-snoc ks l x, contains-snoc ks x y)

  keys-from_keys :
      (d : Dict A (Unit {0})) (xs : List A)
      → keys (from_keys d xs) ≡ keys d ++ filter (absent (keys d)) (first_occurrences xs)
  unfolding from_keys first_occurrences
  keys-from_keys d [] = sym (append-nil (keys d))
  keys-from_keys d (x ∷ xs) = elim (Bool-cases (contains (keys d) x)) [
    | inl old ↦
        rw (keys-from_keys (insert x tt d) xs, keys-insert x d, old)
          (rw (absent-drop_item (keys d) (first_occurrences xs) x old))
    | inr new ↦
        rw (keys-from_keys (insert x tt d) xs, keys-insert x d, new, absent-snoc, append_assoc)
  ]

  filter_all : (xs : List A) → filter (absent []) xs ≡ xs
  filter_all [] = refl
  filter_all (x ∷ xs) = ap (λ l. x ∷ l) (filter_all xs)

  -- `unique` returns the items in the order of their first occurrences.
  pub unique-first_occurrences : (xs : List A) → unique xs ≡ first_occurrences xs
  unfolding unique
  unique-first_occurrences xs = keys-from_keys [] xs ∙ filter_all (first_occurrences xs)

  -- `unique` returns a list in which nothing is repeated and which has the members of its argument,
  -- and it leaves a list alone in which nothing is repeated.
  pub unique_members :
      (xs : List A)
      → IsUnique (unique xs)
        × ((a : A) → contains (unique xs) a ≡ contains xs a)
        × (IsUnique xs → unique xs ≡ xs)
  unique_members xs = rw (unique-first_occurrences xs) (
    first_occurrences-IsUnique xs,
    contains-first_occurrences xs,
    first_occurrences_IsUnique_lem xs,
  )
