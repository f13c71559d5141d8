-- ===== src/Listing/Selection.antt =====
-- Which names `list_dir` of subrepos/plano/src/plano/main.py returns.
use mathlib.Core.Option
use bsord.Base.{
  ◌≡◌, refl, ap, ◌∙◌, Bool, true, false, not, ◌&&◌, inl, inr, Option, none, some, List, [], ◌∷◌,
  Text,
}
use bsord.Base.{
  text_eq, ◌==◌, filter, filter-filter_eq, filter_all, sym, any, all, All, arith, eq_refl,
  Bool-cases,
}
use bsord.Listing.{
  Patterns, patterns, pattern_text, pattern_list, remove, remove_all, exclude_loop, include_loop,
  list_dir, fnmatch_filter,
}

module _ (p : Text → Bool) (n : Text) (kept : p n ≡ false) where
  bind-past :
      (found : List Text)
      → ((names : List Text)
          → remove_all found (n ∷ names)
            ≡ Option.map (λ (r : List Text). n ∷ r) (remove_all found names))
      → (o : Option (List Text))
      → Option.bind (Option.map (λ (r : List Text). n ∷ r) o) (remove_all found)
        ≡ Option.map (λ (r : List Text). n ∷ r) (Option.bind o (remove_all found))
  unfolding Option.bind
  bind-past found ih none = refl
  bind-past found ih (some names) = ih names

  not-eq_removed : (f : Text) → p f ≡ true → (n == f) ≡ false
  not-eq_removed f pf = ground arith

  -- Names that satisfy a test are removed behind a name that does not.
  remove_all_past :
      (found names : List Text)
      → All (λ f. p f ≡ true) found
      → remove_all found (n ∷ names)
        ≡ Option.map (λ (r : List Text). n ∷ r) (remove_all found names)
  unfolding remove_all
  remove_all_past [] names a = refl
  remove_all_past (f ∷ found) names (pf, a) =
      rw (not-eq_removed f pf)
        (bind-past found (λ names. remove_all_past found names a) (remove f names))

filter-All : (p : Text → Bool) (names : List Text) → All (λ f. p f ≡ true) (filter p names)
filter-All p [] = tt
filter-All p (n ∷ names) = ground (arith, filter-All p names)

-- Removing, one by one, the names that satisfy a test leaves those that do not.
remove_all-filter :
    (p : Text → Bool) (names : List Text)
    → remove_all (filter p names) names ≡ some (filter (λ n. not (p n)) names)
unfolding remove_all Option.bind
remove_all-filter p [] = refl
remove_all-filter p (n ∷ names) = elim (Bool-cases (p n)) [
  | inl goes ↦ rw (goes, remove_all, eq_refl n) (remove_all-filter p names)
  | inr stays ↦ rw (
    stays,
    remove_all_past p n stays (filter p names) names (filter-All p names),
    remove_all-filter p names,
  )
]

module _ (matches : Text → Text → Bool) where
  abbrev pub matches_any : List Text → Text → Bool
  matches_any ps name = any (λ pattern. matches name pattern) ps

  abbrev matches_all : List Text → Text → Bool
  matches_all ps name = all (λ pattern. matches name pattern) ps

  pub exclude_loop-filter :
      (exclude names : List Text)
      → exclude_loop matches exclude names
        ≡ some (filter (λ name. not (matches_any exclude name)) names)
  unfolding exclude_loop Option.bind
  exclude_loop-filter [] names = ap some (sym (filter_all _ names (λ x. refl)))
  exclude_loop-filter (pattern ∷ exclude) names =
      rw (remove_all-filter (λ name. matches name pattern) names) (
        exclude_loop-filter exclude _
        ∙ ap some (filter-filter_eq _ _ _ names (λ name. ground arith)))

  -- A name that is selected matches every include pattern and no exclude pattern.
  abbrev pub is_selected : List Text → List Text → Text → Bool
  is_selected include exclude name = matches_all include name && not (matches_any exclude name)

  include_loop-filter :
      (pattern : Text) (include exclude names : List Text)
      → include_loop matches (pattern ∷ include) exclude names
        ≡ some (filter (is_selected (pattern ∷ include) exclude) names)
  unfolding include_loop Option.bind
  include_loop-filter pattern [] exclude names =
      rw (exclude_loop-filter exclude (fnmatch_filter matches names pattern))
        (ap some (filter-filter_eq _ _ _ names (λ name. ground arith)))
  include_loop-filter pattern (next ∷ include) exclude names =
      rw (exclude_loop-filter exclude (fnmatch_filter matches names pattern)) (
        include_loop-filter next include exclude _
        ∙ ap some (
            filter-filter_eq _ _
              (λ name. not (matches_any exclude name) && is_selected (next ∷ include) exclude name)
              _ (λ name. refl)
            ∙ filter-filter_eq _ _ _ names (λ name. ground arith)))

  -- The names that match every include pattern and no exclude pattern; with no include pattern, all.
  abbrev pub selected : List Text → List Text → List Text → List Text
  selected [] exclude names = names
  selected (pattern ∷ more) exclude names = filter (is_selected (pattern ∷ more) exclude) names

  -- The loops over the patterns never raise, and select the names.
  pub list_dir_selects :
      (sort : List Text → List Text) (include exclude : Patterns) (names : List Text)
      → list_dir matches sort include exclude names
        ≡ some (sort (selected (pattern_list include) (pattern_list exclude) names))
  unfolding list_dir
  list_dir_selects sort (pattern_text p) exclude names =
      rw (include_loop-filter p [] (pattern_list exclude) names)
  list_dir_selects sort (patterns []) exclude names = refl
  list_dir_selects sort (patterns (p ∷ include)) exclude names =
      rw (include_loop-filter p include (pattern_list exclude) names)
