-- ===== src/FileSystem/Trees.antt =====
-- What is at a location of a file system that a node was put in or taken out of.
use bsord.Base.{
  ◌≡◌, refl, sym, ◌∙◌, arith, true, false, none, some, [], ◌∷◌, Text, if◌then◌else◌, location_eq,
  Location, ◌==◌, eq_refl, eq-true, inl, inr, Bool-cases,
}
use bsord.Base.Dict
use bsord.Base.Dict.{Dict, lookup-insert, lookup-erase}
use bsord.World.{Node, directory}
use bsord.FileSystem.{FileSystem, node_at, is_there, is_within, outside}

pub root_there : (files : FileSystem) → node_at files [] ≡ some directory
unfolding node_at
root_there files = refl

pub node_at-insert :
    (n : Text) (l loc : Location) (node : Node) (files : FileSystem)
    → node_at (Dict.insert loc node files) (n ∷ l)
      ≡ (if n ∷ l == loc then some node else node_at files (n ∷ l))
unfolding node_at
node_at-insert n l loc node files = lookup-insert (n ∷ l) loc node files

pub node_at-erase :
    (n : Text) (l loc : Location) (files : FileSystem)
    → node_at (Dict.erase loc files) (n ∷ l)
      ≡ (if n ∷ l == loc then none else node_at files (n ∷ l))
unfolding node_at
node_at-erase n l loc files = lookup-erase (n ∷ l) loc files

lookup-outside :
    (l loc : Location) (files : FileSystem)
    → Dict.lookup l (outside loc files) ≡ (if is_within loc l then none else Dict.lookup l files)
unfolding outside Dict.lookup
lookup-outside l loc [] = ground arith
lookup-outside l loc ((k, node) ∷ files) = elim (Bool-cases (l == k)) [
  | inl e ↦ rw (eq-true l k e) (ground (arith, lookup-outside k loc files, eq_refl k))
  | inr e ↦ ground (arith, lookup-outside l loc files)
]

module _ (loc : Location) (node : Node) (files : FileSystem) where
  pub insert-other :
      (l : Location) → (l == loc) ≡ false → node_at (Dict.insert loc node files) l ≡ node_at files l
  insert-other [] h = root_there _ ∙ sym (root_there files)
  insert-other (n ∷ l) h = rw (node_at-insert n l loc node files, h) refl

module _ (loc : Location) (files : FileSystem) where
  pub erase-other :
      (l : Location) → (l == loc) ≡ false → node_at (Dict.erase loc files) l ≡ node_at files l
  erase-other [] h = root_there _ ∙ sym (root_there files)
  erase-other (n ∷ l) h = rw (node_at-erase n l loc files, h) refl

  erase-fewer :
      (n : Text) (l : Location)
      → is_there (node_at (Dict.erase loc files) (n ∷ l)) ≡ true
      → is_there (node_at files (n ∷ l)) ≡ true
  erase-fewer n l h = ground (arith, node_at-erase n l loc files)

pub node_at-outside :
    (n : Text) (l loc : Location) (files : FileSystem)
    → node_at (outside loc files) (n ∷ l)
      ≡ (if is_within loc (n ∷ l) then none else node_at files (n ∷ l))
unfolding node_at
node_at-outside n l loc files = lookup-outside (n ∷ l) loc files

pub outside-other :
    (l loc : Location) (files : FileSystem)
    → is_within loc l ≡ false
    → node_at (outside loc files) l ≡ node_at files l
outside-other [] loc files h = root_there _ ∙ sym (root_there files)
outside-other (n ∷ l) loc files h = rw (node_at-outside n l loc files, h) refl
