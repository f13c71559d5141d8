-- ===== src/Files/Found.antt =====
-- Which paths `find` of subrepos/plano/src/plano/main.py returns.
use mathlib.Core.Option
use bsord.Base.{
  ◌≡◌, refl, ap, ◌∙◌, Bool, true, false, not, ◌&&◌, ◌||◌, Option, some, List, [], ◌∷◌, ◌++◌, Text,
  text_eq, map, filter, any, All, contains, arith, filter-filter_eq,
}
use bsord.World.{World}
use bsord.Iterables.Unique.{unique_members}
use bsord.Iterables.Reference.{IsUnique}
use bsord.Listing.{Patterns, pattern_list, fnmatch_filter}
use bsord.Listing.Selection.{matches_any, exclude_loop-filter}
use bsord.Paths.{join}
use bsord.Files.Finding.{
  Walked, Dirs, dir_list, plain_root, update, find_names, find_walked, find_dirs, find,
}

contains-append :
    (xs ys : List Text) (a : Text) → contains (xs ++ ys) a ≡ (contains xs a || contains ys a)
contains-append [] ys a = refl
contains-append (x ∷ xs) ys a = ground (arith, contains-append xs ys a)

-- A name that a filter keeps gives a path of the unfiltered names.
contains-map-filter :
    (f : Text → Text) (p : Text → Bool) (names : List Text) (a : Text)
    → contains (map f (filter p names)) a ≡ true
    → contains (map f names) a ≡ true
contains-map-filter f p [] a h = h
contains-map-filter f p (n ∷ names) a h = ground (arith, contains-map-filter f p names a)

-- What a call adds to a set: it returns one with these members too.
abbrev Adds : List Text → (Text → Bool) → Option (List Text) → Type 0
Adds found new o =
    (found' : List Text) × (o ≡ some found')
    × (IsUnique found → IsUnique found')
    × ((a : Text) → contains found' a ≡ (contains found a || new a))

Adds-none : (found : List Text) → Adds found (λ a. false) (some found)
Adds-none found = (found, refl, λ u. u, λ a. ground arith)

Adds-bind :
    (found : List Text) (new later both : Text → Bool) (o : Option (List Text))
    (k : List Text → Option (List Text))
    → ((a : Text) → both a ≡ (new a || later a))
    → Adds found new o
    → ((found' : List Text) → Adds found' later (k found'))
    → Adds found both (Option.bind o k)
unfolding Option.bind
Adds-bind found new later both o k e (found', p, u, c) rest =
    let (found'', p', u', c') = rest found' in
    (found'', rw p p', λ v. u' (u v), λ a. ground (arith, c a, c' a, e a))

-- A set that has the paths of all names.
abbrev Covers : (Text → Text) → List Text → List Text → Type 0
Covers f names found = (a : Text) → contains (map f names) a ≡ true → contains found a ≡ true

update-contains :
    (found paths : List Text) (a : Text)
    → contains (update found paths) a ≡ (contains found a || contains paths a)
unfolding update
update-contains found paths a =
    (unique_members (found ++ paths)).1 a ∙ contains-append found paths a

update-IsUnique : (found paths : List Text) → IsUnique (update found paths)
unfolding update
update-IsUnique found paths = (unique_members (found ++ paths)).0

-- A set grows no less from one that has the same members and some more.
Adds-from :
    (found found₁ : List Text) (first new both : Text → Bool) (o : Option (List Text))
    → ((a : Text) → contains found₁ a ≡ (contains found a || first a))
    → ((a : Text) → both a ≡ (first a || new a))
    → IsUnique found₁
    → Adds found₁ new o
    → Adds found both o
Adds-from found found₁ first new both o c e u (found', p, keep, more) =
    (found', p, λ v. keep u, λ a. ground (arith, c a, e a, more a))

Covers-filter :
    (f : Text → Text) (p : Text → Bool) (names found : List Text)
    → Covers f names found
    → Covers f (filter p names) found
Covers-filter f p names found covers a h = covers a (contains-map-filter f p names a h)

Covers-update :
    (f : Text → Text) (names found : List Text) → Covers f names (update found (map f names))
Covers-update f names found a h = ground (arith, update-contains found (map f names) a)

-- The root of a directory is not stripped any further after the first time.
abbrev pub IsSteady : Walked → Type 0
IsSteady walked = plain_root (plain_root walked.root) ≡ plain_root walked.root

module _ (matches : Text → Text → Bool) (w : World) (exclude : List Text) where
  abbrev is_kept : Text → Bool
  is_kept name = not (matches_any matches exclude name)

  -- Further patterns add nothing to a set that has the paths of the names that are left.
  find_names-Covers :
      (include : List Text) (root : Text) (names found : List Text)
      → plain_root root ≡ root
      → Covers (join w root) names found
      → Adds found (λ a. false) (find_names matches w include exclude root names found)
  unfolding find_names Option.bind
  find_names-Covers [] root names found steady covers = Adds-none found
  find_names-Covers (pattern ∷ include) root names found steady covers =
      let left = filter is_kept (fnmatch_filter matches names pattern) in
      let covered =
        Covers-filter (join w root) is_kept (fnmatch_filter matches names pattern) found
          (Covers-filter (join w root) (λ name. matches name pattern) names found covers) in
      let found₁ = update found (map (join w root) left) in
      rw (exclude_loop-filter matches exclude (fnmatch_filter matches names pattern), steady)
        (Adds-from found found₁ (λ a. false) (λ a. false) (λ a. false) _
          (λ a. ground (arith, update-contains found (map (join w root) left) a, covered a))
          (λ a. refl) (update-IsUnique found (map (join w root) left))
          (find_names-Covers include root left found₁ steady
            (Covers-update (join w root) left found)))

  -- The paths of the names in a directory that match a pattern and no exclude pattern.
  abbrev pub selected_paths : Text → Walked → List Text
  selected_paths pattern walked = map (join w (plain_root walked.root)) (
      filter (λ name. matches name pattern && is_kept name) (walked.dir_names ++ walked.file_names))

  abbrev pub is_found : Text → (Text → List Walked) → List Text → Text → Bool
  is_found pattern walk dirs a =
      any (λ dir. any (λ walked. contains (selected_paths pattern walked) a) (walk dir)) dirs

  module _ (pattern : Text) (include : List Text) where
    find_names-Adds :
        (walked : Walked) (found : List Text)
        → IsSteady walked
        → Adds found
            (λ a. contains (selected_paths pattern walked) a)
            (find_names matches w
              (pattern ∷ include)
              exclude
              walked.root
              (walked.dir_names ++ walked.file_names)
              found)
    unfolding find_names Option.bind
    find_names-Adds walked found steady =
        let names = walked.dir_names ++ walked.file_names in
        let root = plain_root walked.root in
        let left = filter (λ name. matches name pattern && is_kept name) names in
        let kept : filter is_kept (fnmatch_filter matches names pattern) ≡ left =
          filter-filter_eq is_kept (λ name. matches name pattern) _ names (λ name. refl) in
        rw (exclude_loop-filter matches exclude (fnmatch_filter matches names pattern), kept)
          (Adds-from found (update found (map (join w root) left))
            (λ a. contains (map (join w root) left) a) (λ a. false) _ _
            (update-contains found (map (join w root) left)) (λ a. ground arith)
            (update-IsUnique found (map (join w root) left))
            (find_names-Covers include root left _ steady (Covers-update (join w root) left found)))

    find_walked-Adds :
        (rounds : List Walked) (found : List Text)
        → All IsSteady rounds
        → Adds found
            (λ a. any (λ walked. contains (selected_paths pattern walked) a) rounds)
            (find_walked matches w (pattern ∷ include) exclude rounds found)
    unfolding find_walked
    find_walked-Adds [] found steady = Adds-none found
    find_walked-Adds (walked ∷ rounds) found (steady, rest) =
        Adds-bind found _ _ _ _ _ (λ a. refl) (find_names-Adds walked found steady)
          (λ found'. find_walked-Adds rounds found' rest)

    module _ (walk : Text → List Walked) where
      find_dirs-Adds :
          (dirs found : List Text)
          → All (λ dir. All IsSteady (walk dir)) dirs
          → Adds found
              (is_found pattern walk dirs)
              (find_dirs matches w walk (pattern ∷ include) exclude dirs found)
      unfolding find_dirs
      find_dirs-Adds [] found steady = Adds-none found
      find_dirs-Adds (dir ∷ dirs) found (steady, rest) =
          Adds-bind found _ _ _ _ _ (λ a. refl) (find_walked-Adds (walk dir) found steady)
            (λ found'. find_dirs-Adds dirs found' rest)

-- If there is an include pattern, and no root that `find` walks through has more to strip once a leading "./", or a whole ".", is
-- stripped, `find` does not raise. It returns, sorted and each once, the paths of the names in the directories that
-- match the first include pattern and no exclude pattern: the include patterns after the first have no effect.
pub find-selects :
    (matches : Text → Text → Bool) (w : World) (walk : Text → List Walked)
    (sort : List Text → List Text) (dirs : Dirs) (include exclude : Patterns) (pattern : Text)
    (more : List Text)
    → pattern_list include ≡ pattern ∷ more
    → All (λ dir. All IsSteady (walk dir)) (dir_list dirs)
    → (found : List Text) × (find matches w walk sort dirs include exclude ≡ some (sort found))
      × IsUnique found
      × ((a : Text)
          → contains found a
            ≡ is_found matches w (pattern_list exclude) pattern walk (dir_list dirs) a)
unfolding find Option.map
find-selects matches w walk sort dirs include exclude pattern more e steady =
    let (found, p, u, c) =
      find_dirs-Adds matches w (pattern_list exclude) pattern more walk (dir_list dirs) [] steady in
    (found, rw e (ap (Option.map sort) p), u tt, c)
