-- ===== src/Base/Dict.antt =====
-- Python dicts as association lists in insertion order.
use bsord.Base.Tests.{if◌then◌else◌, Bool-cases}
use mathlib.Core.Logic.{inl, inr}
use bsord.Base.Equality.{Eq, ◌==◌, contains}
use mathlib.Core.Path.{◌≡◌, refl}
use mathlib.Core.Bool.{Bool, true, false, ◌||◌}
use mathlib.Core.Option.{Option, none, some}
use mathlib.Core.List.{List, [], ◌∷◌}
use native.Mathlib.Omega.{arith}

abbrev pub Dict {ℓ κ} : Type ℓ → Type κ → Type (ℓ ⊔ κ)
Dict K V = List (K × V)

abbrev pub keys {ℓ κ} : {K : Type ℓ} {V : Type κ} → Dict K V → List K
keys [] = []
keys ((k, _) ∷ d) = k ∷ keys d

module _ {ℓ κ} {K : Type ℓ} {V : Type κ} ⦃e : Eq K⦄ where
  -- `d.get(k)`
  unfoldable pub lookup : K → Dict K V → Option V
  lookup k [] = none
  lookup k ((j, v) ∷ d) = if k == j then some v else lookup k d

  -- `k in d`
  unfoldable pub has : K → Dict K V → Bool
  has k [] = false
  has k ((j, v) ∷ d) = if k == j then true else has k d

  -- `d[k] = v`
  unfoldable pub insert : K → V → Dict K V → Dict K V
  insert k v [] = (k, v) ∷ []
  insert k v ((j, w) ∷ d) = if k == j then (k, v) ∷ d else (j, w) ∷ insert k v d

  -- `del d[k]`. Every entry of the key goes; a real dict has at most one.
  unfoldable pub erase : K → Dict K V → Dict K V
  erase k [] = []
  erase k ((j, w) ∷ d) = let rest = erase k d in if k == j then rest else (j, w) ∷ rest

  -- No key is listed twice.
  abbrev pub NodupKeys : Dict K V → Type 0
  NodupKeys [] = Unit
  NodupKeys ((k, _) ∷ d) = (has k d ≡ false) × NodupKeys d

  pub lookup-nil : (k : K) → lookup k [] ≡ none
  unfolding lookup
  lookup-nil k = refl

  pub lookup-cons :
      (j k : K) (v : V) (d : Dict K V)
      → lookup j ((k, v) ∷ d) ≡ (if j == k then some v else lookup j d)
  unfolding lookup
  lookup-cons j k v d = refl

  pub has-lookup :
      (k : K) (d : Dict K V) → has k d ≡ (elim (lookup k d) [ none ↦ false | some _ ↦ true ])
  unfolding has lookup
  has-lookup k [] = refl
  has-lookup k (_ ∷ d) = ground (arith, has-lookup k d)

  pub lookup-insert :
      (j k : K) (v : V) (d : Dict K V)
      → lookup j (insert k v d) ≡ (if j == k then some v else lookup j d)
  unfolding lookup insert
  lookup-insert j k v [] = refl
  lookup-insert j k v (_ ∷ d) = ground (arith, lookup-insert j k v d)

  pub lookup-erase :
      (j k : K) (d : Dict K V) → lookup j (erase k d) ≡ (if j == k then none else lookup j d)
  unfolding lookup erase
  lookup-erase j k [] = ground arith
  lookup-erase j k (_ ∷ d) = ground (arith, lookup-erase j k d)

  pub has-insert : (j k : K) (v : V) (d : Dict K V) → has j (insert k v d) ≡ (j == k || has j d)
  unfolding has insert
  has-insert j k v [] = ground arith
  has-insert j k v (_ ∷ d) = ground (arith, has-insert j k v d)

  pub NodupKeys-insert : (k : K) (v : V) (d : Dict K V) → NodupKeys d → NodupKeys (insert k v d)
  unfolding insert has
  NodupKeys-insert k v [] u = (refl, tt)
  NodupKeys-insert k v ((j, w) ∷ d) (fresh, u) = elim (Bool-cases (k == j)) [
    | inl same ↦ rw same (ground arith, u)
    | inr other ↦ rw other (ground (arith, has-insert j k v d), NodupKeys-insert k v d u)
  ]

  pub contains-keys : (k : K) (d : Dict K V) → contains (keys d) k ≡ has k d
  unfolding has
  contains-keys k [] = refl
  contains-keys k (_ ∷ d) = ground (arith, contains-keys k d)
