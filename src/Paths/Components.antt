-- ===== src/Paths/Components.antt =====
-- The components of a normal path, as the loop of `normpath` builds them, the last one first.
use mathlib.Core.List.{reverse-cons}
use mathlib.Core.Path.{subst}
use bsord.Base.{
  ℕ, ◌≡◌, ◌∙◌, refl, sym, ap, Bool, true, false, List, [], ◌∷◌, ◌++◌, Text, text_eq, nat_eq, str,
  ◌==◌, arith, reverse, All, Lacks, eq-true, Bool-cases, inl, inr, eqb, split_on, prepend_first,
}
use bsord.Paths.{add_component, add_components, go_up}

-- A component that the loop keeps and that has no slash.
abbrev pub IsName : Text → Type 0
IsName c = ((c == []) ≡ false) × ((c == str ".") ≡ false) × Lacks b'/' c

abbrev AllUp : List Text → Type 0
AllUp = All (λ c. (c == str "..") ≡ true)

-- The components are names, and `..` stands only before all others, in a path with no root.
abbrev pub AreNormal : Bool → List Text → Type 0
AreNormal rooted [] = Unit
AreNormal rooted (c ∷ cs) =
    IsName c × ((c == str "..") ≡ true → (rooted ≡ false) × AllUp cs) × AreNormal rooted cs

up-IsName : IsName (str "..")
unfolding text_eq nat_eq
up-IsName = (refl, refl, refl)

go_up-AreNormal :
    (rooted : Bool) (cs : List Text) → AreNormal rooted cs → AreNormal rooted (go_up rooted cs)
go_up-AreNormal true [] h = tt
go_up-AreNormal false [] h = (up-IsName, (λ e. (refl, tt)), tt)
go_up-AreNormal rooted (c ∷ cs) (name, up, h) = elim (Bool-cases (c == str "..")) [
  | inl e ↦ rw e (up-IsName, (λ e'. ((up e).0, (e, (up e).1))), (name, up, h))
  | inr e ↦ rw e h
]

add_component-AreNormal :
    (rooted : Bool) (cs : List Text) (c : Text)
    → Lacks b'/' c
    → AreNormal rooted cs
    → AreNormal rooted (add_component rooted cs c)
add_component-AreNormal rooted cs c lacks h = elim (Bool-cases (c == [])) [
  | inl e ↦ rw e h
  | inr e ↦ elim (Bool-cases (c == str ".")) [
    | inl d ↦ rw (e, d) h
    | inr d ↦ elim (Bool-cases (c == str "..")) [
      | inl u ↦ rw (e, d, u) (go_up-AreNormal rooted cs h)
      | inr u ↦ rw (e, d, u) ((e, d, lacks), (λ u'. cc), h)
    ]
  ]
]

pub add_components-AreNormal :
    (rooted : Bool) (cs path : List Text)
    → All (Lacks b'/') path
    → AreNormal rooted cs
    → AreNormal rooted (add_components rooted cs path)
unfolding add_components
add_components-AreNormal rooted cs [] _ h = h
add_components-AreNormal rooted cs (c ∷ path) (l, ls) h =
    add_components-AreNormal rooted (add_component rooted cs c) path ls
      (add_component-AreNormal rooted cs c l h)

prepend_first-All-Lacks :
    (c : ℕ) (ts : List Text)
    → eqb c b'/' ≡ false
    → All (Lacks b'/') ts
    → All (Lacks b'/') (prepend_first c ts)
unfolding nat_eq
prepend_first-All-Lacks c [] h ls = (ground arith, tt)
prepend_first-All-Lacks c (t ∷ ts) h (l, ls) = (ground arith, ls)

pub split_on-All-Lacks : (t : Text) → All (Lacks b'/') (split_on b'/' t)
unfolding split_on nat_eq
split_on-All-Lacks [] = (refl, tt)
split_on-All-Lacks (c ∷ t) = elim (Bool-cases (eqb c b'/')) [
  | inl e ↦ rw e (refl, split_on-All-Lacks t)
  | inr e ↦ rw e (prepend_first-All-Lacks c (split_on b'/' t) e (split_on-All-Lacks t))
]

-- A component of a normal path is added to those before it.
add_component_normal :
    (rooted : Bool) (cs : List Text) (c : Text)
    → AreNormal rooted (c ∷ cs)
    → add_component rooted cs c ≡ c ∷ cs
add_component_normal rooted [] c ((e, d, lacks), up, h) = elim (Bool-cases (c == str "..")) [
  | inl u ↦
      let (unrooted, ups) = up u in
      let same = eq-true c (str "..") u in rw (e, d, u, unrooted) (ap (λ t. t ∷ []) (sym same))
  | inr u ↦ rw (e, d, u)
]
add_component_normal rooted (b ∷ cs) c ((e, d, lacks), up, h) = elim (Bool-cases (c == str "..")) [
  | inl u ↦
      let (unrooted, ups) = up u in
      let same = eq-true c (str "..") u in rw (e, d, u, ups.0) ((ap (λ t. t ∷ b ∷ cs) (sym same)))
  | inr u ↦ rw (e, d, u)
]

add_components-append :
    (rooted : Bool) (cs path : List Text) (c : Text)
    → add_components rooted cs (path ++ c ∷ [])
      ≡ add_component rooted (add_components rooted cs path) c
unfolding add_components
add_components-append rooted cs [] c = refl
add_components-append rooted cs (d ∷ path) c =
    add_components-append rooted (add_component rooted cs d) path c

-- The loop gives back the components of a normal path.
pub add_components-reverse :
    (rooted : Bool) (cs : List Text)
    → AreNormal rooted cs
    → add_components rooted [] (reverse cs) ≡ cs
unfolding add_components
add_components-reverse rooted [] h = refl
add_components-reverse rooted (c ∷ cs) (name, up, h) =
    ap (add_components rooted []) (reverse-cons c cs)
    ∙ (add_components-append rooted [] (reverse cs) c
        ∙ (ap (λ ds. add_component rooted ds c) (add_components-reverse rooted cs h)
            ∙ add_component_normal rooted cs c (name, up, h)))

All-append : (P : Text → Type 0) (xs ys : List Text) → All P xs → All P ys → All P (xs ++ ys)
All-append P [] ys hx hy = hy
All-append P (x ∷ xs) ys (p, hx) hy = (p, All-append P xs ys hx hy)

pub AreNormal-All-IsName :
    (rooted : Bool) (cs : List Text) → AreNormal rooted cs → All IsName (reverse cs)
AreNormal-All-IsName rooted [] h = tt
AreNormal-All-IsName rooted (c ∷ cs) (name, up, h) =
    subst (All IsName) (sym (reverse-cons c cs))
      (All-append IsName (reverse cs) (c ∷ []) (AreNormal-All-IsName rooted cs h) (name, tt))
