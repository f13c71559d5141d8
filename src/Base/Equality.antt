-- ===== src/Base/Equality.antt =====
-- Texts as lists of code points, and Python's `==` and `in` for types whose equality is decided.
use Prim.Native.Nat.{ℕ}
use Prim.Native.Char.{code}
use Prim.Native.String.{String}
use mathlib.Core.Path.{◌≡◌, refl, ap, ap₂}
use mathlib.Core.Logic.{ite, dite}
use mathlib.Core.Bool.{Bool, true, false, ◌||◌}
use mathlib.Core.List.{List, [], ◌∷◌}
use mathlib.Core.Option.{Option, none, some, none-ne-some, some-ne-none, some-injective}
use native.Mathlib.Omega.{arith}
use native.Mathlib.Decide.{ℕ_discrete}

-- A Python `str` is a sequence of code points.
abbrev pub Text : Type 0
Text = List ℕ

-- The text of a literal.
abbrev pub str : String → Text
str String.[] = []
str (String.◌∷◌ c s) = code c ∷ str s

pub record Eq {ℓ} (A : Type ℓ) : Type ℓ where
  pub dec : Discrete A

module _ {ℓ} {A : Type ℓ} ⦃e : Eq A⦄ where
  infix 50 ◌==◌
  abbrev pub ◌==◌ : A → A → Bool
  a == b = ite (e.dec a b) true false

  -- `a in xs`
  abbrev pub contains : List A → A → Bool
  contains [] a = false
  contains (x ∷ xs) a = a == x || contains xs a

abbrev text_tail : ℕ → Text → Text
text_tail n [] = []
text_tail n (x ∷ xs) = xs

abbrev text_head : ℕ → Text → ℕ
text_head n [] = n
text_head n (x ∷ xs) = x

text_dec : Discrete Text
unfolding ℕ_discrete
text_dec [] [] = yes refl
text_dec [] (y ∷ ys) = no (λ p. cc)
text_dec (x ∷ xs) [] = no (λ p. cc)
text_dec (x ∷ xs) (y ∷ ys) =
    dite (ℕ_discrete x y)
      (λ p. dite (text_dec xs ys) (λ q. yes (ap₂ ◌∷◌ p q)) (λ n. no (λ r. n (ap (text_tail x) r))))
      (λ n. no (λ r. n (ap (text_head x) r)))

instance unfoldable pub text_eq : Eq Text
unfolding text_dec
text_eq = record { dec = text_dec }

instance unfoldable pub nat_eq : Eq ℕ
unfolding ℕ_discrete
nat_eq = record { dec = ℕ_discrete }

pub eq_refl {ℓ} : {A : Type ℓ} ⦃e : Eq A⦄ (a : A) → (a == a) ≡ true
eq_refl a = ground arith

pub eq-true {ℓ} : {A : Type ℓ} ⦃e : Eq A⦄ (a b : A) → (a == b) ≡ true → a ≡ b
eq-true a b h = ground arith

module _ {ℓ} {A : Type ℓ} ⦃e : Eq A⦄ where
  option_dec : Discrete (Option A)
  option_dec none none = yes refl
  option_dec none (some b) = no (none-ne-some b)
  option_dec (some a) none = no (some-ne-none a)
  option_dec (some a) (some b) =
      dite (e.dec a b) (λ p. yes (ap some p)) (λ n. no (λ p. n (some-injective a b p)))

  instance unfoldable pub option_eq : Eq (Option A)
  unfolding option_dec
  option_eq = record { dec = option_dec }

module _ {ℓ} {A : Type ℓ} ⦃e : Eq A⦄ where
  abbrev list_tail : List A → List A
  list_tail [] = []
  list_tail (x ∷ xs) = xs

  abbrev list_head : A → List A → A
  list_head a [] = a
  list_head a (x ∷ xs) = x

  list_dec : Discrete (List A)
  list_dec [] [] = yes refl
  list_dec [] (y ∷ ys) = no (λ p. cc)
  list_dec (x ∷ xs) [] = no (λ p. cc)
  list_dec (x ∷ xs) (y ∷ ys) =
      dite (e.dec x y)
        (λ p. dite (list_dec xs ys) (λ q. yes (ap₂ ◌∷◌ p q)) (λ n. no (λ r. n (ap list_tail r))))
        (λ n. no (λ r. n (ap (list_head x) r)))

abbrev pub Location : Type 0
Location = List Text

-- Locations, which are lists of names.
instance unfoldable pub location_eq : Eq (List Text)
unfolding list_dec text_eq
location_eq = record { dec = list_dec }
