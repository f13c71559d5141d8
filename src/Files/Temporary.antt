-- ===== src/Files/Temporary.antt =====
-- What a `temp_file` and a `temp_dir` block of subrepos/plano/src/plano/main.py leave behind.
use mathlib.Core.Path.{subst}
use bsord.Base.{
  ◌≡◌, refl, ap, sym, ◌∙◌, ℕ, ◌++◌, arith, Bool, true, false, ◌&&◌, Option, none, some, [], ◌∷◌,
  Text, text_eq, ◌==◌, location_eq, Location,
}
use bsord.World.{
  World, Call, Result, Node, ok, regular, directory, pure, bind_ok, with_manager, with_manager_ok,
  ◌>>◌,
}
use bsord.Base.Dict
use bsord.Paths.{expand, join_two}
use bsord.FileSystem.{
  node_at, location, parent, lstat, stat, is_directory, is_symlink, is_within, set_node,
  create_node,
}
use bsord.Environment.{one_path}
use bsord.Files.{remove}
use bsord.Files.Blocks.{
  temp_path, make_temp_file, make_temp_dir, remove_temp, with_temp_file, with_temp_dir,
}
use bsord.Files.Removal.{Gone}
use bsord.Files.RemovedPaths.{Removed, remove-Removed}

-- A new node in a directory that is there.
create_node-there :
    (loc : Location) (node : Node) (w : World)
    → node_at w.files (parent loc) ≡ some directory
    → create_node loc node w ≡ set_node loc node w
unfolding create_node
create_node-there loc node w there = rw there refl

-- A path that still leads to its own place, and to no link to a directory.
pub record Kept (w : World) (path : Text) (loc : Location) : Type 0 where
  pub expanded : expand w path ≡ path
  pub place : location w path ≡ loc
  pub plain : (is_symlink (lstat w path) && is_directory (stat w path)) ≡ false

-- A joined text with a second part that has a character is not empty.
append-filled : (x : Text) (c : ℕ) (t : Text) → (x ++ (c ∷ t) == []) ≡ false
unfolding text_eq
append-filled [] c t = refl
append-filled (d ∷ x) c t = refl

join_two-filled : (x : Text) (c : ℕ) (t : Text) → (join_two x (c ∷ t) == []) ≡ false
unfolding join_two
join_two-filled x c t =
    ground (arith, append-filled x c t, append-filled x b'/' (c ∷ t), append-filled [] c t)

-- The new node of a `temp_dir` or a `temp_file` block.
abbrev pub temp_node : Bool → Node
temp_node true = directory
temp_node false = regular []

-- The world in which the body of such a block, with the new node, starts.
abbrev pub with_node : Bool → Location → World → World
with_node b loc w = record w { files = Dict.insert loc (temp_node b) w.files }

module _ (system_temp_dir user : Text) (temp_name : World → Text → Text) where
  abbrev leave : Text → Call (Unit {0})
  leave = remove_temp system_temp_dir user temp_name

  -- A kept path is removed.
  remove_temp-Gone :
      (w : World) (path n : Text) (loc : Location)
      → (path == []) ≡ false
      → Kept w path (n ∷ loc)
      → Gone (n ∷ loc) w.files (remove_temp system_temp_dir user temp_name path w)
  unfolding remove_temp
  remove_temp-Gone w path n loc filled kept =
      let e = kept.expanded in
      let plain = ap (λ p. is_symlink (lstat w p) && is_directory (stat w p)) e ∙ kept.plain in
      subst (λ b. Removed b (n ∷ loc) w.files (remove (one_path path) true w)) plain
        (remove-Removed w path true n loc (ap (expand w) e) (ap (λ p. p == []) e ∙ filled)
          (ap (location w) e ∙ kept.place))

  -- What a block leaves of the path that it starts with, and of what is elsewhere.
  temp-leaves :
      {A : Type 0} (make : Call Text) (body : Text → Call A) (w w₁ : World) (path n : Text)
      (loc : Location)
      → make w ≡ (ok path, w₁)
      → (path == []) ≡ false
      → Kept (body path w₁).1 path (n ∷ loc)
      → let (r, w₂) = body path w₁ in
        let (s, w₃) = with_manager make leave body w in
        (s ≡ r) × Gone (n ∷ loc) w₂.files (ok tt, w₃)
  temp-leaves {A} make body w w₁ path n loc made filled kept =
      let w₂ = (body path w₁).1 in
      let gone = remove_temp-Gone w₂ path n loc filled kept in
      let removed = ap (λ r. (r, (leave path w₂).1)) gone.0 in
      let whole = with_manager_ok make leave body w made removed in
      (
        ap (λ p. p.0) whole,
        subst (λ w₃. Gone (n ∷ loc) w₂.files (ok tt, w₃)) (sym (ap (λ p. p.1) whole))
            (refl, gone.1, gone.2),
      )

  -- A block with a temporary directory, or one with a temporary file.
  abbrev pub with_temp : {A : Type 0} → Bool → Text → Option Text → (Text → Call A) → Call A
  with_temp true = with_temp_dir system_temp_dir user temp_name
  with_temp false = with_temp_file system_temp_dir user temp_name

  abbrev pub new_path : World → Text → Option Text → Text
  new_path = temp_path system_temp_dir user temp_name

  new_path-filled :
      (w : World) (suffix : Text) (dir : Option Text) → (new_path w suffix dir == []) ≡ false
  new_path-filled w suffix none = join_two-filled _ b'p' _
  new_path-filled w suffix (some dir) = join_two-filled dir b'p' _

  create-there :
      (b : Bool) (path n : Text) (loc : Location) (w : World)
      → location w path ≡ n ∷ loc
      → node_at w.files (parent (n ∷ loc)) ≡ some directory
      → (create_node (location w path) (temp_node b) >> pure path) w
        ≡ (ok path, with_node b (n ∷ loc) w)
  unfolding set_node
  create-there b path n loc w place there =
      ap (λ k. (create_node k (temp_node b) >> pure path) w) place
      ∙ bind_ok (create_node (n ∷ loc) (temp_node b)) (λ _. pure path) w
          (create_node-there (n ∷ loc) (temp_node b) w there)

  module _ (suffix : Text) (dir : Option Text) (w : World) (n : Text) (loc : Location)
      (place : location w (new_path w suffix dir) ≡ n ∷ loc)
      (there : node_at w.files (parent (n ∷ loc)) ≡ some directory) where
    make_temp_dir-there :
        make_temp_dir system_temp_dir user temp_name suffix dir w
        ≡ (ok (new_path w suffix dir), with_node true (n ∷ loc) w)
    unfolding make_temp_dir
    make_temp_dir-there = create-there true (new_path w suffix dir) n loc w place there

    make_temp_file-there :
        make_temp_file system_temp_dir user temp_name suffix dir w
        ≡ (ok (new_path w suffix dir), with_node false (n ∷ loc) w)
    unfolding make_temp_file
    make_temp_file-there = create-there false (new_path w suffix dir) n loc w place there

  -- The block, with what its body did written out.
  with_temp_lem :
      {A : Type 0} (b : Bool) (suffix : Text) (dir : Option Text) (body : Text → Call A) (w : World)
      (n : Text) (loc l : Location)
      → location w (new_path w suffix dir) ≡ n ∷ loc
      → node_at w.files (parent (n ∷ loc)) ≡ some directory
      → let path = new_path w suffix dir in
        let (r, w₂) = body path (with_node b (n ∷ loc) w) in
        Kept w₂ path (n ∷ loc)
        → is_within (n ∷ loc) l ≡ false
        → node_at w₂.files l ≡ node_at w.files l
        → let (s, w₃) = with_temp b suffix dir body w in
          (s ≡ r) × (node_at w₃.files (n ∷ loc) ≡ none) × (node_at w₃.files l ≡ node_at w.files l)
  unfolding with_temp_dir with_temp_file
  with_temp_lem true suffix dir body w n loc l place there kept outside same =
      let path = new_path w suffix dir in
      let (result, left) =
        temp-leaves (make_temp_dir system_temp_dir user temp_name suffix dir) body w _ path n loc
          (make_temp_dir-there suffix dir w n loc place there) (new_path-filled w suffix dir)
          kept in
      (result, left.1, left.2 l outside ∙ same)
  with_temp_lem false suffix dir body w n loc l place there kept outside same =
      let path = new_path w suffix dir in
      let (result, left) =
        temp-leaves (make_temp_file system_temp_dir user temp_name suffix dir) body w _ path n loc
          (make_temp_file-there suffix dir w n loc place there) (new_path-filled w suffix dir)
          kept in
      (result, left.1, left.2 l outside ∙ same)

  -- If the directory of the new path is there, and the path still leads to its place after the body
  -- and to no link to a directory, then a `temp_dir` and a `temp_file` block have the result of their
  -- body, whether it returns or raises, nothing is left at the place, and what is neither there nor
  -- below it is as it was before the block if the body left it so.
  pub with_temp-leaves :
      {A : Type 0} (b : Bool) (suffix : Text) (dir : Option Text) (body : Text → Call A)
      (w w₂ : World) (r : Result A) (n : Text) (loc l : Location)
      → location w (new_path w suffix dir) ≡ n ∷ loc
      → node_at w.files (parent (n ∷ loc)) ≡ some directory
      → body (new_path w suffix dir) (with_node b (n ∷ loc) w) ≡ (r, w₂)
      → Kept w₂ (new_path w suffix dir) (n ∷ loc)
      → is_within (n ∷ loc) l ≡ false
      → node_at w₂.files l ≡ node_at w.files l
      → let (s, w₃) = with_temp b suffix dir body w in
        (s ≡ r) × (node_at w₃.files (n ∷ loc) ≡ none) × (node_at w₃.files l ≡ node_at w.files l)
  with_temp-leaves b suffix dir body w w₂ r n loc l place there ran kept outside same =
      let path = new_path w suffix dir in
      let after = ap (λ p. p.1) ran in
      let (result, gone, rest) =
        with_temp_lem b suffix dir body w n loc l place there
          (subst (λ v. Kept v path (n ∷ loc)) (sym after) kept) outside
          (ap (λ v. node_at v.files l) after ∙ same) in
      (result ∙ ap (λ p. p.0) ran, gone, rest)
