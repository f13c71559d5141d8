-- ===== src/Iterables/Reference.antt =====
-- What `unique` computes, described with no dictionary: an item stands where it occurs first.
use bsord.Base.{◌≡◌, refl, ap, ◌∙◌, Bool, false, not, ◌&&◌, List, [], ◌∷◌, arith}
use bsord.Base.{Eq, ◌==◌, contains, filter}

module _ {A : Type 0} ⦃e : Eq A⦄ where
  abbrev pub drop_item : A → List A → List A
  drop_item a = filter (λ b. not (b == a))

  unfoldable pub first_occurrences : List A → List A
  first_occurrences [] = []
  first_occurrences (x ∷ xs) = x ∷ drop_item x (first_occurrences xs)

  -- No item occurs twice.
  abbrev pub IsUnique : List A → Type 0
  IsUnique [] = Unit
  IsUnique (x ∷ xs) = (contains xs x ≡ false) × IsUnique xs

  pub contains-filter :
      (p : A → Bool) (xs : List A) (a : A) → contains (filter p xs) a ≡ (contains xs a && p a)
  contains-filter p [] a = refl
  contains-filter p (x ∷ xs) a = ground (arith, contains-filter p xs a)

  filter-IsUnique : (p : A → Bool) (xs : List A) → IsUnique xs → IsUnique (filter p xs)
  filter-IsUnique p [] u = tt
  filter-IsUnique p (x ∷ xs) (fresh, u) =
      ground (arith, filter-IsUnique p xs u, contains-filter p xs x)

  pub first_occurrences-IsUnique : (xs : List A) → IsUnique (first_occurrences xs)
  unfolding first_occurrences
  first_occurrences-IsUnique [] = tt
  first_occurrences-IsUnique (x ∷ xs) = (
    ground (arith, contains-filter (λ b. not (b == x)) (first_occurrences xs) x),
    filter-IsUnique _ _ (first_occurrences-IsUnique xs),
  )

  pub contains-first_occurrences :
      (xs : List A) (a : A) → contains (first_occurrences xs) a ≡ contains xs a
  unfolding first_occurrences
  contains-first_occurrences [] a = refl
  contains-first_occurrences (x ∷ xs) a = ground (
    arith,
    contains-filter (λ b. not (b == x)) (first_occurrences xs) a,
    contains-first_occurrences xs a,
  )

  drop_item_absent : (a : A) (xs : List A) → contains xs a ≡ false → drop_item a xs ≡ xs
  drop_item_absent a [] h = refl
  drop_item_absent a (x ∷ xs) h = ground (arith, drop_item_absent a xs)

  -- A list with no repetition is its own list of first occurrences.
  pub first_occurrences_IsUnique_lem : (xs : List A) → IsUnique xs → first_occurrences xs ≡ xs
  unfolding first_occurrences
  first_occurrences_IsUnique_lem [] u = refl
  first_occurrences_IsUnique_lem (x ∷ xs) (fresh, u) =
      ap (λ l. x ∷ drop_item x l) (first_occurrences_IsUnique_lem xs u)
      ∙ ap (λ l. x ∷ l) (drop_item_absent x xs fresh)
