-- ===== src/Paths/Normal.antt =====
-- Normal paths: what `normpath` returns, and what it leaves alone.
use bsord.Base.{
  ℕ, zero, suc, ◌≡◌, ◌∙◌, ◌≤◌, refl, sym, ap, Bool, false, not, List, [], ◌∷◌, ◌++◌, Text, text_eq,
  nat_eq, str, arith, reverse, All, Lacks, split_on, split_on-join, join_texts, eqb,
}
use bsord.Paths.{normpath, from_components, add_components, initial_slashes, slashes, or_dot}
use bsord.Paths.Components.{
  IsName, AreNormal, add_components-reverse, add_components-AreNormal, AreNormal-All-IsName,
  split_on-All-Lacks,
}

initial_slashes-le : (t : Text) → initial_slashes t ≤ 2
unfolding initial_slashes
initial_slashes-le [] = omega arith
initial_slashes-le (a ∷ []) = ground arith
initial_slashes-le (a ∷ b ∷ []) = ground arith
initial_slashes-le (a ∷ b ∷ c ∷ t) = ground arith

pub IsName-cons : (c : Text) → IsName c → (x : ℕ) × (t : Text) × (c ≡ x ∷ t) × (eqb x b'/' ≡ false)
unfolding text_eq nat_eq
IsName-cons [] (e, d, l) = cc
IsName-cons (x ∷ t) (e, d, l) = (x, t, refl, ground arith)

initial_slashes-slashes :
    (n x : ℕ) (t : Text) → n ≤ 2 → eqb x b'/' ≡ false → initial_slashes (slashes n ++ (x ∷ t)) ≡ n
unfolding initial_slashes
initial_slashes-slashes zero x [] h e = rw e
initial_slashes-slashes zero x (a ∷ []) h e = rw e
initial_slashes-slashes zero x (a ∷ b ∷ t) h e = rw e
initial_slashes-slashes (suc zero) x [] h e = rw e
initial_slashes-slashes (suc zero) x (a ∷ t) h e = rw e
initial_slashes-slashes (suc (suc zero)) x t h e = rw e
initial_slashes-slashes (suc (suc (suc n))) x t h e = absurd (omega arith)

split_on-slashes :
    (n : ℕ) (t : Text) (rooted : Bool)
    → add_components rooted [] (split_on b'/' (slashes n ++ t))
      ≡ add_components rooted [] (split_on b'/' t)
unfolding split_on text_eq add_components
split_on-slashes zero t rooted = refl
split_on-slashes (suc n) t rooted = split_on-slashes n t rooted

join-cons :
    (c : Text) (cs : List Text) (x : ℕ) (t : Text)
    → c ≡ x ∷ t
    → (u : Text) × (join_texts (str "/") (c ∷ cs) ≡ x ∷ u)
unfolding join_texts
join-cons c [] x t e = (t, e)
join-cons c (d ∷ cs) x t e = (
  t ++ (str "/" ++ join_texts (str "/") (d ∷ cs)),
  ap (λ s. s ++ (str "/" ++ join_texts (str "/") (d ∷ cs))) e,
)

All-IsName-Lacks : (cs : List Text) → All IsName cs → All (Lacks b'/') cs
All-IsName-Lacks [] h = tt
All-IsName-Lacks (c ∷ cs) ((e, d, l), h) = (l, All-IsName-Lacks cs h)

split_on-names :
    (names : List Text) (rooted : Bool)
    → All IsName names
    → add_components rooted [] (split_on b'/' (join_texts (str "/") names))
      ≡ add_components rooted [] names
unfolding text_eq add_components split_on join_texts
split_on-names [] rooted h = refl
split_on-names (c ∷ cs) rooted h =
    let (l, ls) = All-IsName-Lacks (c ∷ cs) h in
    ap (add_components rooted []) (split_on-join b'/' c cs l ls)

initial_slashes-names :
    (n : ℕ) (names : List Text)
    → n ≤ 2
    → All IsName names
    → initial_slashes (slashes n ++ join_texts (str "/") names) ≡ n
unfolding initial_slashes join_texts
initial_slashes-names zero [] h ok = refl
initial_slashes-names (suc zero) [] h ok = refl
initial_slashes-names (suc (suc zero)) [] h ok = refl
initial_slashes-names (suc (suc (suc n))) [] h ok = absurd (omega arith)
initial_slashes-names n (c ∷ cs) h (name, ok) =
    let (x, t, first, e) = IsName-cons c name in
    let (u, whole) = join-cons c cs x t first in
    ap (λ s. initial_slashes (slashes n ++ s)) whole ∙ initial_slashes-slashes n x u h e

-- What is normal but for an empty path.
normpath-text :
    (n : ℕ) (cs : List Text)
    → n ≤ 2
    → AreNormal (not (eqb n 0)) cs
    → normpath (slashes n ++ join_texts (str "/") (reverse cs)) ≡ from_components n cs
unfolding normpath
normpath-text n cs h ok =
    let names = reverse cs in
    let rooted = not (eqb n 0) in
    let good = AreNormal-All-IsName rooted cs ok in
    let p = slashes n ++ join_texts (str "/") names in
    ap (λ (k : ℕ). from_components k (add_components (not (eqb k 0)) [] (split_on b'/' p)))
      (initial_slashes-names n names h good)
    ∙ ap (from_components n) (
        split_on-slashes n (join_texts (str "/") names) rooted
        ∙ (split_on-names names rooted good ∙ add_components-reverse rooted cs ok))

normpath-or_dot : (t : Text) → normpath (or_dot t) ≡ normpath t
unfolding normpath text_eq initial_slashes split_on add_components
normpath-or_dot [] = refl
normpath-or_dot (c ∷ t) = refl

-- What `normpath` returns is a number of slashes and normal components.
pub normpath-AreNormal :
    (path : Text)
    → (n : ℕ) × (cs : List Text) × (n ≤ 2)
      × AreNormal (not (eqb n 0)) cs
      × (normpath path ≡ from_components n cs)
unfolding normpath
normpath-AreNormal path =
    let n = initial_slashes path in
    let rooted = not (eqb n 0) in
    (
      n,
      add_components rooted [] (split_on b'/' path),
      initial_slashes-le path,
      add_components-AreNormal rooted [] (split_on b'/' path) (split_on-All-Lacks path) tt,
      refl,
    )

pub normpath-from_components :
    (n : ℕ) (cs : List Text)
    → n ≤ 2
    → AreNormal (not (eqb n 0)) cs
    → normpath (from_components n cs) ≡ from_components n cs
normpath-from_components n cs h ok =
    normpath-or_dot (slashes n ++ join_texts (str "/") (reverse cs)) ∙ normpath-text n cs h ok

-- A normal path stays as it is.
pub normpath_idempotent : (path : Text) → normpath (normpath path) ≡ normpath path
normpath_idempotent path =
    let (n, cs, h, ok, e) = normpath-AreNormal path in
    ap normpath e ∙ (normpath-from_components n cs h ok ∙ sym e)
