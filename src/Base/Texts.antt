-- ===== src/Base/Texts.antt =====
-- Texts joined by a separator and split at a character.
use Prim.Native.Nat.{ℕ}
use mathlib.Core.Path.{◌≡◌, refl, ap, ◌∙◌}
use mathlib.Core.Bool.{false}
use mathlib.Core.List.{List, [], ◌∷◌, ◌++◌}
use native.Mathlib.Omega.{arith}
use bsord.Base.Tests.{eqb, if◌then◌else◌}
use bsord.Base.Equality.{Text, contains, nat_eq}
use bsord.Base.Lists.{All}

-- `sep.join(texts)`
unfoldable pub join_texts : Text → List Text → Text
join_texts sep [] = []
join_texts sep (x ∷ []) = x
join_texts sep (x ∷ y ∷ xs) = x ++ (sep ++ join_texts sep (y ∷ xs))

abbrev pub prepend_first : ℕ → List Text → List Text
prepend_first c [] = (c ∷ []) ∷ []
prepend_first c (t ∷ ts) = (c ∷ t) ∷ ts

-- `text.split(sep)`, for a separator of one character.
unfoldable pub split_on : ℕ → Text → List Text
split_on sep [] = [] ∷ []
split_on sep (c ∷ t) =
    let rest = split_on sep t in if eqb c sep then [] ∷ rest else prepend_first c rest

-- A text that the split does not cut.
abbrev pub Lacks : ℕ → Text → Type 0
Lacks sep t = contains t sep ≡ false

pub Lacks-cons : (sep c : ℕ) (t : Text) → Lacks sep (c ∷ t) → (eqb c sep ≡ false) × Lacks sep t
unfolding nat_eq
Lacks-cons sep c t h = ground arith

pub split_on-Lacks : (sep : ℕ) (t : Text) → Lacks sep t → split_on sep t ≡ t ∷ []
unfolding split_on nat_eq
split_on-Lacks sep [] h = refl
split_on-Lacks sep (c ∷ t) h =
    let (other, rest) = Lacks-cons sep c t h in rw (other, split_on-Lacks sep t rest)

pub split_on-append :
    (sep : ℕ) (t rest : Text) → Lacks sep t → split_on sep (t ++ sep ∷ rest) ≡ t ∷ split_on sep rest
unfolding split_on nat_eq
split_on-append sep [] rest h = ground arith
split_on-append sep (c ∷ t) rest h =
    let (other, more) = Lacks-cons sep c t h in rw (other, split_on-append sep t rest more)

-- Splitting gives back the texts that were joined.
pub split_on-join :
    (sep : ℕ) (t : Text) (ts : List Text)
    → Lacks sep t
    → All (Lacks sep) ts
    → split_on sep (join_texts (sep ∷ []) (t ∷ ts)) ≡ t ∷ ts
unfolding join_texts
split_on-join sep t [] h hs = split_on-Lacks sep t h
split_on-join sep t (u ∷ ts) h (hu, hs) =
    split_on-append sep t (join_texts (sep ∷ []) (u ∷ ts)) h
    ∙ ap (λ names. t ∷ names) (split_on-join sep u ts hu hs)
