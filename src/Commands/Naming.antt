-- ===== src/Commands/Naming.antt =====
-- The names of commands, and the file that they are loaded from.
use bsord.Base.{
  ℕ, ◌≡◌, refl, ap, Bool, false, Option, none, some, List, [], ◌∷◌, ◌++◌, Text, nat_eq, arith, eqb,
  contains, filter, map,
}
use bsord.Commands.{default_name, rstrip, strip_before, hyphens, find_file, first_file, file_names}

contains-hyphens : (t : Text) → contains (hyphens t) b'_' ≡ false
unfolding nat_eq
contains-hyphens [] = refl
contains-hyphens (c ∷ t) = ground (arith, contains-hyphens t)

rstrip-append : (t : Text) → rstrip (t ++ b'_' ∷ []) ≡ rstrip t
unfolding rstrip
rstrip-append [] = refl
rstrip-append (c ∷ t) = ap (strip_before c) (rstrip-append t)

rstrip-end : (t : Text) (c : ℕ) → eqb c b'_' ≡ false → rstrip (t ++ c ∷ []) ≡ t ++ c ∷ []
unfolding rstrip
rstrip-end [] c h = rw h
rstrip-end (d ∷ []) c h = ap (strip_before d) (rstrip-end [] c h)
rstrip-end (d ∷ e ∷ t) c h = ap (strip_before d) (rstrip-end (e ∷ t) c h)

-- A command's name has no underscore: one at the end of the function's name counts for nothing, and when there is none at
-- the end, each is a hyphen and nothing else changes.
pub default_name_hyphenated :
    (t : Text) (c : ℕ)
    → (contains (default_name t) b'_' ≡ false)
      × (default_name (t ++ b'_' ∷ []) ≡ default_name t)
      × (eqb c b'_' ≡ false → default_name (t ++ c ∷ []) ≡ hyphens (t ++ c ∷ []))
unfolding default_name
default_name_hyphenated t c =
    (contains-hyphens (rstrip t), ap hyphens (rstrip-append t), λ h. ap hyphens (rstrip-end t c h))

abbrev pub first_of {ℓ} : {A : Type ℓ} → List A → Option A
first_of [] = none
first_of (x ∷ xs) = some x

first_file_lem :
    (join : Text → Text → Text) (is_file : Text → Bool) (dir : Text) (names : List Text)
    → first_file join is_file dir names ≡ first_of (filter is_file (map (join dir) names))
unfolding first_file
first_file_lem join is_file dir [] = refl
first_file_lem join is_file dir (name ∷ names) =
    ground (arith, first_file_lem join is_file dir names)

-- The file that commands are loaded from is the first that exists of `.plano.py`, `Planofile` and
-- `.planofile` in the directory.
pub find_file_first :
    (join : Text → Text → Text) (is_file : Text → Bool) (dir : Text)
    → find_file join is_file dir ≡ first_of (filter is_file (map (join dir) file_names))
unfolding find_file
find_file_first join is_file dir = first_file_lem join is_file dir file_names
