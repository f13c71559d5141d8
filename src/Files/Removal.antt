-- ===== src/Files/Removal.antt =====
-- What `remove` of one path leaves.
use mathlib.Core.Path.{subst}
use mathlib.Core.Bool.{true≢false}
use bsord.Base.{
  ◌≡◌, refl, ap, sym, ◌∙◌, arith, Bool, true, false, not, Option, none, some, List, [], ◌∷◌, Text,
  str, ◌==◌, eq_refl, eq-true, text_eq, Location, location_eq, if◌then◌else◌, inl, inr, Bool-cases,
}
use bsord.World.{
  World, Call, Event, Result, ok, Node, regular, directory, symlink, message, quoted, bind_ok, pure,
  ◌>>◌,
}
use bsord.Logging.{debug_if}
use bsord.Paths.{expand}
use bsord.FileSystem.{
  FileSystem, node_at, location, lstat, stat, is_directory, is_symlink, is_there, is_within,
  os_rmtree, os_remove, erase_node, erase_tree, on_node, at, not_found, os_fail,
}
use bsord.FileSystem.Writing.{follow-end}
use bsord.FileSystem.Trees.{erase-other, outside-other, node_at-erase, node_at-outside}
use bsord.Files.{exists, is_dir, remove_one}
use bsord.Files.Returning.{debug_if-events}

-- Nothing is left at a location, and what is neither there nor below it is as it was.
abbrev pub Gone : Location → FileSystem → Result (Unit {0}) × World → Type 0
Gone loc files (r, w₁) =
    (r ≡ ok tt)
    × (node_at w₁.files loc ≡ none)
    × ((l : Location) → is_within loc l ≡ false → node_at w₁.files l ≡ node_at files l)

is_within_refl : (loc : Location) → is_within loc loc ≡ true
unfolding is_within
is_within_refl [] = refl
is_within_refl (n ∷ loc) = ground (arith, is_within_refl loc, eq_refl n)

-- What is not at or below a location is elsewhere.
elsewhere : (loc l : Location) → is_within loc l ≡ false → (l == loc) ≡ false
elsewhere loc l h = elim (Bool-cases (l == loc)) [
  | inl e ↦ absurd (
      true≢false (
        sym (subst (λ k. is_within loc k ≡ true) (sym (eq-true l loc e)) (is_within_refl loc)) ∙ h))
  | inr e ↦ e
]

pub erase_node-Gone :
    (n : Text) (loc : Location) (w : World) → Gone (n ∷ loc) w.files (erase_node (n ∷ loc) w)
unfolding erase_node
erase_node-Gone n loc w = (
  refl,
  rw (node_at-erase n loc (n ∷ loc) w.files, eq_refl (n ∷ loc)) refl,
  λ l h. erase-other (n ∷ loc) w.files l (elsewhere (n ∷ loc) l h),
)

pub erase_tree-Gone :
    (n : Text) (loc : Location) (w : World) → Gone (n ∷ loc) w.files (erase_tree (n ∷ loc) w)
unfolding erase_tree
erase_tree-Gone n loc w = (
  refl,
  rw (node_at-outside n loc (n ∷ loc) w.files, is_within_refl (n ∷ loc)) refl,
  λ l h. outside-other l (n ∷ loc) w.files h,
)

pub lstat-filled :
    (w : World) (p : Text) → (p == []) ≡ false → lstat w p ≡ node_at w.files (location w p)
lstat-filled w [] h = absurd (true≢false (sym (eq_refl {A = Text} []) ∙ h))
lstat-filled w (c ∷ p) h = refl

-- What is no link is what a path leads to.
pub stat-lstat : (w : World) (p : Text) → is_symlink (lstat w p) ≡ false → stat w p ≡ lstat w p
stat-lstat w [] h = refl
stat-lstat w (c ∷ p) h = ap (at w.files) (follow-end 40 w.files (location w (c ∷ p)) h)

-- The part of `remove` for a path that is there.
abbrev pub removal : Bool → Text → Call (Unit {0})
removal b p = if b then os_rmtree p else os_remove p

-- What `os.remove` does with a node that is no directory.
on_node-other :
    (o : Option Node) (m d f : Call (Unit {0})) (w : World)
    → is_there o ≡ true
    → is_directory o ≡ false
    → on_node o m (λ s. f) d (λ t. f) w ≡ f w
on_node-other none m d f w there other = cc
on_node-other (some (regular s)) m d f w there other = refl
on_node-other (some directory) m d f w there other = cc
on_node-other (some (symlink t)) m d f w there other = refl

module _ (w : World) (p : Text) where
  pub removal-tree : lstat w p ≡ some directory → removal true p w ≡ erase_tree (location w p) w
  unfolding os_rmtree
  removal-tree e =
      ap (λ o. on_node o (pure tt) (λ s. pure tt) (erase_tree (location w p)) (λ t. pure tt) w) e

  pub removal-link : (t : Text) → lstat w p ≡ some (symlink t) → removal true p w ≡ (ok tt, w)
  unfolding os_rmtree
  removal-link t e =
      ap (λ o. on_node o (pure tt) (λ s. pure tt) (erase_tree (location w p)) (λ t. pure tt) w) e

  pub removal-node :
      is_there (lstat w p) ≡ true
      → is_directory (lstat w p) ≡ false
      → removal false p w ≡ erase_node (location w p) w
  unfolding os_remove
  removal-node there other =
      on_node-other (lstat w p) not_found (os_fail (str "IsADirectoryError"))
        (erase_node (location w p)) w there other

-- A path that `remove` finds there.
pub remove_one-there :
    (w : World) (path : Text) (quiet b : Bool)
    → exists w (expand w path) ≡ true
    → is_dir w (expand w path) ≡ b
    → (events : List Event) × (remove_one quiet path w
        ≡ removal b (expand w path) (record w { events = events }))
unfolding remove_one
remove_one-there w path quiet b e d =
    let p = expand w path in
    let m = message (str "Removing {}") (quoted p ∷ []) in
    let w₁ : World = record w { events = (debug_if quiet m w).1.events } in
    let rest : Call (Unit {0}) = debug_if quiet m >> removal (is_dir w p) p in
    (
      w₁.events,
      ap (λ (b : Bool). (if not b then pure tt else rest) w) e
          ∙ bind_ok (debug_if quiet m) (λ _. removal (is_dir w p) p) w (debug_if-events quiet m w)
          ∙ ap (λ b. removal b p w₁) d,
    )
