-- ===== src/FileSystem/Writing.antt =====
-- What a path leads to after a file has been written there.
use mathlib.Core.Path.{subst}
use mathlib.Core.Option.{some-injective, none-ne-some}
use mathlib.Core.Bool.{true≢false}
use bsord.Base.{
  ℕ, zero, suc, ◌≡◌, ◌⊎◌, refl, sym, ap, ◌∙◌, arith, true, false, Option, none, some, [], ◌∷◌, str,
  Text, Location, location_eq, text_eq, inl, inr, Bool-cases, ◌==◌, eq_refl, eq-true,
}
use bsord.Base.Dict
use bsord.Base.Dict.{Dict}
use bsord.World.{World, ok, pure, Node, regular, directory, symlink}
use bsord.FileSystem.{
  FileSystem, node_at, parent, lead, follow, followed, at, locate, path_of, is_symlink, is_regular,
  on_node, on_location, set_node, create_node, write_node, os_write, os_read, location, not_found,
  os_fail,
}
use bsord.FileSystem.Trees.{node_at-insert, insert-other, root_there}

lead-end :
    (on : Text → Option Location) (l : Location) (o : Option Node)
    → is_symlink o ≡ false
    → lead on l o ≡ some l
lead-end on l none h = refl
lead-end on l (some (regular s)) h = refl
lead-end on l (some directory) h = refl
lead-end on l (some (symlink t)) h = cc

follow-zero : (files : FileSystem) (l : Location) → follow zero files l ≡ none
unfolding follow
follow-zero files l = refl

pub follow-end :
    (n : ℕ) (files : FileSystem) (l : Location)
    → is_symlink (node_at files l) ≡ false
    → follow (suc n) files l ≡ some l
unfolding follow
follow-end n files l h = lead-end _ l (node_at files l) h

follow-link :
    (n : ℕ) (files : FileSystem) (l : Location) (t : Text)
    → node_at files l ≡ some (symlink t)
    → follow (suc n) files l ≡ follow n files (locate (path_of (parent l)) t)
unfolding follow
follow-link n files l t h =
    ap (lead (λ target. follow n files (locate (path_of (parent l)) target)) l) h

no_link_written :
    (loc : Location) (s : Text) (files : FileSystem)
    → is_symlink (node_at (Dict.insert loc (regular s) files) loc) ≡ false
no_link_written [] s files = ap is_symlink (root_there _)
no_link_written (n ∷ l) s files =
    rw (node_at-insert n l (n ∷ l) (regular s) files, eq_refl (n ∷ l)) refl

pub symlink-cases :
    (o : Option Node) → ((t : Text) × (o ≡ some (symlink t))) ⊎ (is_symlink o ≡ false)
symlink-cases none = inr refl
symlink-cases (some (regular s)) = inr refl
symlink-cases (some directory) = inr refl
symlink-cases (some (symlink t)) = inl (t, refl)

-- A link is not where a file is written.
link-elsewhere :
    (l loc : Location) (files : FileSystem) (t : Text)
    → node_at files l ≡ some (symlink t)
    → is_symlink (node_at files loc) ≡ false
    → (l == loc) ≡ false
link-elsewhere l loc files t e h = elim (Bool-cases (l == loc)) [
  | inl f ↦ absurd (
      true≢false (
        sym (ap is_symlink e)
        ∙ subst (λ k. is_symlink (node_at files k) ≡ false) (sym (eq-true l loc f)) h))
  | inr f ↦ f
]

-- The links that led to a location still lead to it when it has been written.
pub follow-insert :
    (n : ℕ) (files : FileSystem) (l loc : Location) (s : Text)
    → is_symlink (node_at files loc) ≡ false
    → follow n files l ≡ some loc
    → follow n (Dict.insert loc (regular s) files) l ≡ some loc
follow-insert zero files l loc s h e = absurd (none-ne-some loc (sym (follow-zero files l) ∙ e))
follow-insert (suc n) files l loc s h e = elim (symlink-cases (node_at files l)) [
  | inl (t, f) ↦
      follow-link n (Dict.insert loc (regular s) files) l t
        (insert-other loc (regular s) files l (link-elsewhere l loc files t f h) ∙ f)
      ∙ follow-insert n files (locate (path_of (parent l)) t) loc s h
          (sym (follow-link n files l t f) ∙ e)
  | inr f ↦
      subst (λ k. follow (suc n) (Dict.insert loc (regular s) files) k ≡ some loc)
        (sym (some-injective l loc (sym (follow-end n files l f) ∙ e)))
        (follow-end n (Dict.insert loc (regular s) files) loc (no_link_written loc s files))
]

-- The contents of a file, none if it is not there.
abbrev pub contents : Option Node → Text
contents (some (regular s)) = s
contents _ = []

-- A file, or nothing in a directory.
abbrev pub Free : FileSystem → Location → Type 0
Free files loc =
    (is_regular (node_at files loc) ≡ true)
    ⊎ ((node_at files loc ≡ none) × (node_at files (parent loc) ≡ some directory))

-- A path leads to a file, or to where one can be made in a directory.
pub record CanWrite (w : World) (path : Text) (loc : Location) : Type 0 where
  pub leads : followed w path ≡ some loc
  pub free : Free w.files loc

abbrev pub written : Location → Text → World → World
written loc s w = record w { files = Dict.insert loc (regular s) w.files }

regular-cases : (o : Option Node) → is_regular o ≡ true → (s : Text) × (o ≡ some (regular s))
regular-cases none h = cc
regular-cases (some (regular s)) h = (s, refl)
regular-cases (some directory) h = cc
regular-cases (some (symlink t)) h = cc

write_node-Free :
    (loc : Location) (change : Text → Text) (w : World)
    → Free w.files loc
    → write_node loc change w ≡ (ok tt, written loc (change (contents (node_at w.files loc))) w)
unfolding write_node create_node set_node
write_node-Free loc change w (inl h) =
    let (s, e) = regular-cases (node_at w.files loc) h in ground (arith, e)
write_node-Free loc change w (inr (h, up)) = ground (arith, h, up)

-- No link is where a file can be written.
Free-no_link :
    (files : FileSystem) (loc : Location) → Free files loc → is_symlink (node_at files loc) ≡ false
Free-no_link files loc (inl h) = let (s, e) = regular-cases (node_at files loc) h in ap is_symlink e
Free-no_link files loc (inr (h, up)) = ap is_symlink h

node_at-written :
    (files : FileSystem) (loc : Location) (s : Text)
    → Free files loc
    → node_at (Dict.insert loc (regular s) files) loc ≡ some (regular s)
node_at-written files [] s (inl h) = absurd (true≢false (sym h ∙ ap is_regular (root_there files)))
node_at-written files [] s (inr (h, up)) =
    absurd (none-ne-some directory (sym h ∙ root_there files))
node_at-written files (n ∷ l) s h =
    rw (node_at-insert n l (n ∷ l) (regular s) files, eq_refl (n ∷ l)) refl

followed-written :
    (w : World) (path : Text) (loc : Location) (s : Text)
    → Free w.files loc
    → followed w path ≡ some loc
    → followed (written loc s w) path ≡ some loc
followed-written w [] loc s h e = absurd (none-ne-some loc e)
followed-written w (c ∷ path) loc s h e =
    follow-insert 41 w.files (location w (c ∷ path)) loc s (Free-no_link w.files loc h) e

module _ (w : World) (path : Text) (loc : Location) (h : CanWrite w path loc) where
  -- A write that can be done is done.
  pub os_write-written :
      (change : Text → Text)
      → os_write path change w ≡ (ok tt, written loc (change (contents (node_at w.files loc))) w)
  unfolding os_write
  os_write-written change =
      ap (λ o. on_location o (λ l. write_node l change) w) h.leads
      ∙ write_node-Free loc change w h.free

  -- What was written is read.
  pub os_read-written : (s : Text) → os_read path (written loc s w) ≡ (ok s, written loc s w)
  unfolding os_read
  os_read-written s =
      let stat_written =
        ap (at (written loc s w).files) (followed-written w path loc s h.free h.leads)
        ∙ node_at-written w.files loc s h.free in
      ap
        (λ o.
          on_node o not_found pure (os_fail (str "IsADirectoryError"))
            (λ t. os_fail (str "OSError")) (written loc s w))
        stat_written

  -- The other locations keep their nodes.
  pub node_at-other :
      (s : Text) (l : Location)
      → (l == loc) ≡ false
      → node_at (written loc s w).files l ≡ node_at w.files l
  node_at-other s l e = insert-other loc (regular s) w.files l e
