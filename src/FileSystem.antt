-- ===== src/FileSystem.antt =====
-- The operations of the operating system on which the file, directory, link and temp operations of
-- subrepos/plano/src/plano/main.py rest, as changes of the nodes of the state. A symbolic link is
-- followed where it is the last component of a path; permissions, times and encodings are left out.
pub mod Trees
pub mod Writing
use bsord.Base.{
  ℕ, zero, suc, Bool, true, false, not, ◌&&◌, Option, none, some, List, [], ◌∷◌, ◌++◌, Text,
  text_eq, str, ◌==◌, eqb, if◌then◌else◌, reverse, split_on, join_texts, location_eq, Location,
  ◌||◌,
}
use bsord.Base.Dict
use bsord.Base.Dict.{Dict}
use bsord.World.{
  World, Call, Exception, Node, regular, directory, symlink, pure, raise, modify, ◌>>◌,
}
use bsord.Strings.{starts_with}
use bsord.Paths.{add_components, join_two}

abbrev pub FileSystem : Type 0
FileSystem = Dict Location Node

-- The location of a path, seen from a directory.
unfoldable pub locate : Text → Text → Location
unfolding add_components split_on join_two
locate current_dir path =
    reverse (add_components true [] (split_on b'/' (join_two current_dir path)))

abbrev pub location : World → Text → Location
location w path = locate w.current_dir path

-- The root is always there.
unfoldable pub node_at : FileSystem → Location → Option Node
unfolding Dict.lookup
node_at files [] = some directory
node_at files (name ∷ names) = Dict.lookup (name ∷ names) files

-- The location that holds a location, the root for itself.
abbrev pub parent : Location → Location
parent [] = []
parent (name ∷ []) = []
parent (name ∷ n ∷ names) = name ∷ parent (n ∷ names)

-- The path of a location.
unfoldable pub path_of : Location → Text
unfolding join_texts
path_of names = b'/' ∷ join_texts (str "/") names

-- A link leads on; anything else is where the way ends.
abbrev pub lead : (Text → Option Location) → Location → Option Node → Option Location
lead on loc (some (symlink target)) = on target
lead on loc _ = some loc

-- Where the links at a location lead, which may be nowhere; `none` for too many links.
unfoldable pub follow : ℕ → FileSystem → Location → Option Location
unfolding node_at locate path_of
follow zero files loc = none
follow (suc links) files loc =
    lead (λ target. follow links files (locate (path_of (parent loc)) target)) loc
      (node_at files loc)

-- No more than 40 links are followed. An empty path leads nowhere.
abbrev pub followed : World → Text → Option Location
followed w [] = none
followed w (c ∷ path) = follow 41 w.files (location w (c ∷ path))

abbrev pub at : FileSystem → Option Location → Option Node
at files none = none
at files (some loc) = node_at files loc

-- `os.stat(path)` and `os.lstat(path)`
abbrev pub stat : World → Text → Option Node
stat w path = at w.files (followed w path)

abbrev pub lstat : World → Text → Option Node
lstat w [] = none
lstat w (c ∷ path) = node_at w.files (location w (c ∷ path))

abbrev pub is_directory : Option Node → Bool
is_directory (some directory) = true
is_directory _ = false

abbrev pub is_regular : Option Node → Bool
is_regular (some (regular s)) = true
is_regular _ = false

abbrev pub is_symlink : Option Node → Bool
is_symlink (some (symlink t)) = true
is_symlink _ = false

abbrev pub is_there : Option Node → Bool
is_there none = false
is_there (some node) = true

abbrev pub os_fail : {A : Type 0} → Text → Call A
os_fail name = raise (Exception.os_error name)

-- What a call does with what it finds at a path: nothing, a file, a directory or a link.
abbrev pub on_node :
    {A : Type 0} → Option Node → Call A → (Text → Call A) → Call A → (Text → Call A) → Call A
on_node none missing on_regular on_directory on_link = missing
on_node (some (regular s)) missing on_regular on_directory on_link = on_regular s
on_node (some directory) missing on_regular on_directory on_link = on_directory
on_node (some (symlink t)) missing on_regular on_directory on_link = on_link t

abbrev pub not_found : {A : Type 0} → Call A
not_found = os_fail (str "FileNotFoundError")

-- What a call does where a path leads.
abbrev pub on_location : {A : Type 0} → Option Location → (Location → Call A) → Call A
on_location none f = not_found
on_location (some loc) f = f loc

-- `files[loc] = node`
unfoldable pub set_node : Location → Node → Call (Unit {0})
unfolding Dict.insert
set_node loc node = modify (λ w. record w { files = Dict.insert loc node w.files })

-- A new node, which must be in a directory.
unfoldable pub create_node : Location → Node → Call (Unit {0})
unfolding set_node node_at
create_node loc node w =
    on_node (node_at w.files (parent loc)) not_found (λ s. os_fail (str "NotADirectoryError"))
      (set_node loc node) (λ t. os_fail (str "NotADirectoryError")) w

-- Files are written as a whole: the new contents are made of the old, which are empty for a new
-- file.
unfoldable pub write_node : Location → (Text → Text) → Call (Unit {0})
unfolding create_node set_node node_at
write_node loc change w =
    on_node (node_at w.files loc) (create_node loc (regular (change [])))
      (λ s. set_node loc (regular (change s))) (os_fail (str "IsADirectoryError"))
      (λ t. os_fail (str "OSError")) w

-- `with open(path, mode) as f: f.write(string)`, which makes the old contents the new ones.
unfoldable pub os_write : Text → (Text → Text) → Call (Unit {0})
unfolding write_node follow
os_write path change w = on_location (followed w path) (λ loc. write_node loc change) w

-- A read turns each line end, `\r\n`, `\r` or `\n`, into `\n`.
unfoldable pub universal_newlines : Bool → Text → Text
universal_newlines after_return [] = []
universal_newlines after_return (c ∷ t) =
    let rest = universal_newlines (eqb c b'\r') t in
    if eqb c b'\r' then b'\n' ∷ rest else if eqb c b'\n' && after_return then rest else c ∷ rest

-- The bytes of a file.
unfoldable pub os_read : Text → Call Text
unfolding follow node_at
os_read path w =
    on_node (stat w path) not_found pure (os_fail (str "IsADirectoryError"))
      (λ t. os_fail (str "OSError")) w

-- One step of `os.makedirs`: a directory is made if nothing is there.
unfoldable pub make_missing : Location → Call (Unit {0}) → Call (Unit {0})
unfolding create_node node_at
make_missing loc rest w =
    on_node (node_at w.files loc) (create_node loc directory >> rest)
      (λ s. os_fail (str "NotADirectoryError")) rest (λ t. os_fail (str "NotADirectoryError")) w

-- The directories on the way to a location and the one at it, from those that are there.
unfoldable pub make_directories : Location → Location → Call (Unit {0})
unfolding make_missing
make_directories made [] = pure tt
make_directories made (name ∷ names) =
    let loc = made ++ name ∷ [] in make_missing loc (make_directories loc names)

-- `os.makedirs(path)`
unfoldable pub os_makedirs : Text → Call (Unit {0})
unfolding make_directories node_at
os_makedirs path w =
    (if path == []
        then not_found
        else if is_there (lstat w path)
        then os_fail (str "FileExistsError")
        else make_directories [] (location w path))
      w

-- The node at a location goes.
unfoldable pub erase_node : Location → Call (Unit {0})
unfolding Dict.erase
erase_node loc = modify (λ w. record w { files = Dict.erase loc w.files })

-- `os.remove(path)`
unfoldable pub os_remove : Text → Call (Unit {0})
unfolding erase_node node_at
os_remove path w =
    on_node (lstat w path) not_found (λ s. erase_node (location w path))
      (os_fail (str "IsADirectoryError")) (λ t. erase_node (location w path)) w

-- A location at or below another.
unfoldable pub is_within : Location → Location → Bool
is_within [] loc = true
is_within (n ∷ ns) [] = false
is_within (n ∷ ns) (m ∷ ms) = (n == m) && is_within ns ms

-- The nodes that are not at a location or below it.
unfoldable pub outside : Location → FileSystem → FileSystem
unfolding is_within
outside loc [] = []
outside loc ((l, node) ∷ files) =
    let rest = outside loc files in if is_within loc l then rest else (l, node) ∷ rest

-- The nodes at a location and below it go.
unfoldable pub erase_tree : Location → Call (Unit {0})
unfolding outside
erase_tree loc = modify (λ w. record w { files = outside loc w.files })

-- `shutil.rmtree(path, ignore_errors=True)`, which refuses to remove a link.
unfoldable pub os_rmtree : Text → Call (Unit {0})
unfolding erase_tree node_at
os_rmtree path w =
    on_node (lstat w path) (pure tt) (λ s. pure tt) (erase_tree (location w path)) (λ t. pure tt) w

-- `os.symlink(target, path)`
unfoldable pub os_symlink : Text → Text → Call (Unit {0})
unfolding create_node node_at
os_symlink target path w =
    (if path == [] || target == []
        then not_found
        else if is_there (lstat w path)
        then os_fail (str "FileExistsError")
        else create_node (location w path) (symlink target))
      w

-- `os.readlink(path)`
unfoldable pub os_readlink : Text → Call Text
unfolding node_at
os_readlink path w =
    on_node (lstat w path) not_found (λ s. os_fail (str "OSError")) (os_fail (str "OSError")) pure w

-- The name of a location in a directory.
abbrev pub child_name : Location → Location → Option Text
child_name [] (name ∷ []) = some name
child_name (n ∷ ns) (m ∷ ms) = elim (n == m) [ true ↦ child_name ns ms | false ↦ none ]
child_name _ _ = none

-- The names of the nodes in a directory.
unfoldable pub child_names : Location → FileSystem → List Text
child_names loc [] = []
child_names loc ((l, node) ∷ files) = elim (child_name loc l) [
  | none ↦ child_names loc files
  | some name ↦ name ∷ child_names loc files
]

-- `os.listdir(path)`
unfoldable pub os_listdir : Text → Call (List Text)
unfolding child_names follow node_at
os_listdir path w =
    on_location (followed w path)
      (λ loc.
        if is_directory (node_at w.files loc)
        then pure (child_names loc w.files)
        else os_fail (str "NotADirectoryError"))
      w

-- `os.chdir(path)`
unfoldable pub os_chdir : Text → Call (Unit {0})
unfolding path_of follow node_at
os_chdir path w =
    on_location (followed w path)
      (λ loc.
        if is_directory (node_at w.files loc)
        then modify (λ w. record w { current_dir = path_of loc })
        else os_fail (str "NotADirectoryError"))
      w
