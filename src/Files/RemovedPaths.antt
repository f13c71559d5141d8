-- ===== src/Files/RemovedPaths.antt =====
-- `remove` of one path, of subrepos/plano/src/plano/main.py, on every kind of node.
use mathlib.Core.Path.{subst}
use bsord.Base.{
  ◌≡◌, refl, ap, sym, ◌∙◌, arith, Bool, true, false, not, ◌&&◌, Option, none, some, [], ◌∷◌, Text,
  str, ◌==◌, text_eq, Location, location_eq, if◌then◌else◌, inl, inr, Bool-cases, and-true,
}
use bsord.World.{
  World, Result, ok, Node, regular, directory, symlink, message, quoted, err, resume, pure, ◌>>◌,
}
use bsord.Logging.{debug_if}
use bsord.Paths.{expand}
use bsord.Environment.{one_path}
use bsord.FileSystem.{
  FileSystem, node_at, location, lstat, stat, is_directory, is_symlink, is_there, erase_node,
  erase_tree,
}
use bsord.FileSystem.Writing.{symlink-cases}
use bsord.Files.{exists, is_dir, remove_one, remove_each, remove}
use bsord.Files.Removal.{
  Gone, removal, removal-tree, removal-link, removal-node, remove_one-there, erase_node-Gone,
  erase_tree-Gone, lstat-filled, stat-lstat,
}

directory-case : (o : Option Node) → is_directory o ≡ true → o ≡ some directory
directory-case none h = cc
directory-case (some (regular s)) h = cc
directory-case (some directory) h = refl
directory-case (some (symlink t)) h = cc

module _ (w : World) (p n : Text) (loc : Location) (place : location w p ≡ n ∷ loc)
    (there : is_there (lstat w p) ≡ true) where
  removed_node :
      is_directory (lstat w p) ≡ false
      → is_directory (stat w p) ≡ false
      → Gone (n ∷ loc) w.files (removal (is_directory (stat w p)) p w)
  removed_node other d =
      subst (Gone (n ∷ loc) w.files)
        (sym (
          ap (λ b. removal b p w) d
          ∙ removal-node w p there other
          ∙ ap (λ l. erase_node l w) place))
        (erase_node-Gone n loc w)

  removed_tree :
      lstat w p ≡ some directory
      → is_directory (stat w p) ≡ true
      → Gone (n ∷ loc) w.files (removal (is_directory (stat w p)) p w)
  removed_tree e d =
      subst (Gone (n ∷ loc) w.files)
        (sym (ap (λ b. removal b p w) d ∙ removal-tree w p e ∙ ap (λ l. erase_tree l w) place))
        (erase_tree-Gone n loc w)

  -- What is left of a path that is there and is no link to a directory.
  removal-Gone :
      (is_symlink (lstat w p) && is_directory (stat w p)) ≡ false
      → Gone (n ∷ loc) w.files (removal (is_directory (stat w p)) p w)
  removal-Gone plain = elim (symlink-cases (lstat w p)) [
    | inl (t, e) ↦ removed_node (ap is_directory e) (ground (arith, ap is_symlink e))
    | inr no_link ↦
        let same = ap is_directory (stat-lstat w p no_link) in
        elim (Bool-cases (is_directory (lstat w p))) [
          | inl d ↦ removed_tree (directory-case (lstat w p) d) (same ∙ d)
          | inr d ↦ removed_node d (same ∙ d)
        ]
  ]

-- A path with a link to a directory, and any other path.
abbrev pub Removed : Bool → Location → FileSystem → Result (Unit {0}) × World → Type 0
Removed true loc files (r, w₁) = (r ≡ ok tt) × (w₁.files ≡ files)
Removed false loc files p = Gone loc files p

link-case : (o : Option Node) → is_symlink o ≡ true → (t : Text) × (o ≡ some (symlink t))
link-case none h = cc
link-case (some (regular s)) h = cc
link-case (some directory) h = cc
link-case (some (symlink t)) h = (t, refl)

removal-Removed :
    (w : World) (p n : Text) (loc : Location) (b : Bool)
    → location w p ≡ n ∷ loc
    → is_there (lstat w p) ≡ true
    → (is_symlink (lstat w p) && is_directory (stat w p)) ≡ b
    → Removed b (n ∷ loc) w.files (removal (is_directory (stat w p)) p w)
removal-Removed w p n loc false place there e = removal-Gone w p n loc place there e
removal-Removed w p n loc true place there e =
    let (link, d) = and-true (is_symlink (lstat w p)) (is_directory (stat w p)) e in
    let (t, is_link) = link-case (lstat w p) link in
    subst (Removed true (n ∷ loc) w.files)
      (sym (ap (λ b. removal b p w) d ∙ removal-link w p t is_link)) (refl, refl)

there-case : (o : Option Node) → is_there o ≡ false → o ≡ none
there-case none h = refl
there-case (some node) h = cc

remove_one-nothing :
    (w : World) (path : Text) (quiet : Bool)
    → exists w (expand w path) ≡ false
    → remove_one quiet path w ≡ (ok tt, w)
unfolding remove_one
remove_one-nothing w path quiet e =
    let p = expand w path in
    let m = message (str "Removing {}") (quoted p ∷ []) in
    ap (λ (b : Bool). (if not b then pure tt else (debug_if quiet m >> removal (is_dir w p) p)) w) e

exists-expanded : (w : World) (p : Text) → expand w p ≡ p → exists w p ≡ is_there (lstat w p)
unfolding exists
exists-expanded w p e = ap (λ q. is_there (lstat w q)) e

is_dir-expanded : (w : World) (p : Text) → expand w p ≡ p → is_dir w p ≡ is_directory (stat w p)
unfolding is_dir
is_dir-expanded w p e = ap (λ q. is_directory (stat w q)) e

-- `remove` goes through the one path.
Removed-last :
    (b : Bool) (loc : Location) (files : FileSystem) (p : Result (Unit {0}) × World)
    → Removed b loc files p
    → Removed b loc files (resume (λ _. pure tt) p)
Removed-last true loc files (ok u, w₁) (r, same) = (refl, same)
Removed-last true loc files (err e, w₁) h = h
Removed-last false loc files (ok u, w₁) (r, gone, rest) = (refl, gone, rest)
Removed-last false loc files (err e, w₁) h = h

module _ (w : World) (path : Text) (quiet : Bool) (n : Text) (loc : Location)
    (stable : expand w (expand w path) ≡ expand w path)
    (place : location w (expand w path) ≡ n ∷ loc) where
  remove_one-missing :
      is_there (lstat w (expand w path)) ≡ false
      → (expand w path == []) ≡ false
      → Removed
          (is_symlink (lstat w (expand w path)) && is_directory (stat w (expand w path)))
          (n ∷ loc)
          w.files
          (remove_one quiet path w)
  remove_one-missing e filled =
      let p = expand w path in
      let nothing : lstat w p ≡ none = there-case (lstat w p) e in
      let at_place = sym (ap (node_at w.files) place) in
      subst (λ b. Removed b (n ∷ loc) w.files (remove_one quiet path w))
        (sym (ap (λ o. is_symlink o && is_directory (stat w p)) nothing))
        (subst (Gone (n ∷ loc) w.files)
          (sym (remove_one-nothing w path quiet (exists-expanded w p stable ∙ e)))
          (refl, (at_place ∙ sym (lstat-filled w p filled) ∙ nothing), λ l h. refl))

  remove_one-found :
      is_there (lstat w (expand w path)) ≡ true
      → Removed
          (is_symlink (lstat w (expand w path)) && is_directory (stat w (expand w path)))
          (n ∷ loc)
          w.files
          (remove_one quiet path w)
  remove_one-found e =
      let p = expand w path in
      let (events, done) =
        remove_one-there w path quiet (is_directory (stat w p)) (exists-expanded w p stable ∙ e)
          (is_dir-expanded w p stable) in
      subst (Removed (is_symlink (lstat w p) && is_directory (stat w p)) (n ∷ loc) w.files)
        (sym done) (removal-Removed (record w { events = events }) p n loc _ place e refl)

-- `remove` of one path, which `expand` changes no further and which is neither empty nor the root,
-- returns. If there is a link to a directory at it, all files stay as they are; otherwise nothing is
-- left at its place, and what is neither there nor below it is as it was.
pub remove-Removed :
    (w : World) (path : Text) (quiet : Bool) (n : Text) (loc : Location)
    → expand w (expand w path) ≡ expand w path
    → (expand w path == []) ≡ false
    → location w (expand w path) ≡ n ∷ loc
    → let p = expand w path in
      Removed
        (is_symlink (lstat w p) && is_directory (stat w p))
        (n ∷ loc)
        w.files
        (remove (one_path path) quiet w)
unfolding remove remove_each
remove-Removed w path quiet n loc stable filled place =
    let p = expand w path in
    Removed-last (is_symlink (lstat w p) && is_directory (stat w p)) (n ∷ loc) w.files
      (remove_one quiet path w)
      (elim (Bool-cases (is_there (lstat w p))) [
        | inl e ↦ remove_one-found w path quiet n loc stable place e
        | inr e ↦ remove_one-missing w path quiet n loc stable place e filled
      ])
