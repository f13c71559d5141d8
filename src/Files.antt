-- ===== src/Files.antt =====
-- The operations of subrepos/plano/src/plano/main.py on the nodes of the file system: the tests of
-- paths, directories, and the file operations, over the calls of the operating system.
pub mod Contents
pub mod Finding
pub mod Found
pub mod Copying
pub mod Blocks
pub mod Writing
pub mod Documents
pub mod Listed
pub mod Removal
pub mod RemovedPaths
pub mod Returning
pub mod Temporary
use bsord.Base.{
  Bool, true, false, not, ◌&&◌, ◌||◌, Option, none, some, List, [], ◌∷◌, ◌++◌, Text, text_eq, str,
  ◌==◌, if◌then◌else◌,
}
use bsord.World.{
  World, Call, Exception, message, shown, quoted, all_quoted, pure, raise, gets, when, or_raise,
  assert, ◌>>=◌, ◌>>◌,
}
use bsord.Logging.{info_if, debug_if}
use bsord.Listing
use bsord.Listing.{Patterns, pattern_text, patterns}
use bsord.Paths.{expand, get_parent_dir, get_base_name}
use bsord.Environment.{PathArg, one_path, paths}
use bsord.FileSystem.{
  stat, lstat, is_directory, is_regular, is_symlink, is_there, os_makedirs, os_remove, os_rmtree,
  os_symlink, os_readlink, os_listdir, os_chdir, node_at, follow,
}

-- `exists`
unfoldable pub exists : World → Text → Bool
unfolding node_at
exists w path = is_there (lstat w (expand w path))

-- `is_dir`
unfoldable pub is_dir : World → Text → Bool
unfolding node_at follow
is_dir w path = is_directory (stat w (expand w path))

-- `is_file`
unfoldable pub is_file : World → Text → Bool
unfolding node_at follow
is_file w path = is_regular (stat w (expand w path))

-- `is_link`
unfoldable pub is_link : World → Text → Bool
unfolding node_at
is_link w path = is_symlink (lstat w (expand w path))

-- `make_dir`
unfoldable pub make_dir : Text → Bool → Call Text
unfolding exists os_makedirs
make_dir dir quiet w =
    (if dir == [] || exists w dir then pure dir else (do
      info_if quiet (message (str "Making directory '{}'") (shown dir ∷ []))
      os_makedirs dir
      pure dir))
      w

-- `make_parent_dir`
unfoldable pub make_parent_dir : Text → Bool → Call Text
unfolding make_dir get_parent_dir
make_parent_dir path quiet w = make_dir (get_parent_dir w path) quiet w

-- `change_dir`, which returns the directory that was current before.
unfoldable pub change_dir : Text → Bool → Call Text
unfolding os_chdir
change_dir dir quiet = do
  debug_if quiet (message (str "Changing directory to {}") (quoted dir ∷ []))
  prev_dir ← gets (λ w. w.current_dir)
  when (not (dir == [])) (os_chdir dir)
  pure prev_dir

-- The argument of `list_dir`: nothing and the empty path stand for the current directory.
abbrev pub listed_dir : Option Text → World → Text
listed_dir none w = w.current_dir
listed_dir (some []) w = w.current_dir
listed_dir (some (c ∷ dir)) w = c ∷ dir

-- The paths that `remove` is given.
abbrev path_list : PathArg → List Text
path_list (one_path path) = path ∷ []
path_list (paths ps) = ps

-- `list_dir`, where `matches` is `fnmatch`'s test and `sort` is `sorted`.
unfoldable pub list_dir :
    (Text → Text → Bool)
    → (List Text → List Text)
    → Option Text
    → Patterns
    → Patterns
    → Call (List Text)
unfolding Listing.list_dir is_dir os_listdir
list_dir matches sort dir include exclude w =
    let path = listed_dir dir w in
    (do
      assert (is_dir w path) (message path [])
      names ← os_listdir path
      or_raise (Listing.list_dir matches sort include exclude names) Exception.value_error)
      w

-- One round of the loop of `remove`.
unfoldable pub remove_one : Bool → Text → Call (Unit {0})
unfolding exists is_dir os_rmtree os_remove
remove_one quiet path w =
    let path = expand w path in
    (if not (exists w path) then pure tt else (do
      debug_if quiet (message (str "Removing {}") (quoted path ∷ []))
      if is_dir w path then os_rmtree path else os_remove path))
      w

unfoldable pub remove_each : Bool → List Text → Call (Unit {0})
unfolding remove_one
remove_each quiet [] = pure tt
remove_each quiet (path ∷ ps) = remove_one quiet path >> remove_each quiet ps

-- `remove`
unfoldable pub remove : PathArg → Bool → Call (Unit {0})
unfolding remove_each
remove arg quiet = remove_each quiet (path_list arg)

-- `make_link`, which makes the link at the path as it is, not as `expand` gives it.
unfoldable pub make_link : Text → Text → Bool → Call Text
unfolding make_parent_dir remove os_symlink
make_link path linked_path quiet = do
  info_if quiet (message (str "Making symlink {} to {}") (quoted path ∷ quoted linked_path ∷ []))
  make_parent_dir path true
  remove (one_path path) true
  os_symlink linked_path path
  pure path

-- `read_link`
unfoldable pub read_link : Text → Call Text
unfolding os_readlink
read_link path = os_readlink path

-- The error of `_check_path`, which tells what the parent directory contains if there is one.
unfoldable pub path_error :
    (Text → Text → Bool) → (List Text → List Text) → Text → Text → Call (Unit {0})
unfolding list_dir is_dir get_parent_dir
path_error matches sort template path w =
    let parent_dir = get_parent_dir w path in
    (if is_dir w parent_dir
        then (do
          found ← list_dir matches sort (some parent_dir) (pattern_text (str "*")) (patterns [])
          raise (
              Exception.plano_error (
                message (template ++ str ". The parent directory contains: {}")
                  (quoted path ∷ all_quoted found ∷ []))))
        else raise (Exception.plano_error (message template (quoted path ∷ []))))
      w

-- `_check_path`
unfoldable pub check_path :
    (Text → Text → Bool)
    → (List Text → List Text)
    → (World → Text → Bool)
    → Text
    → Text
    → Call (Unit {0})
unfolding path_error
check_path matches sort test template path w =
    let path = expand w path in
    (if test w path then pure tt else path_error matches sort template path) w

-- `check_exists`, `check_file` and `check_dir`
module _ (matches : Text → Text → Bool) (sort : List Text → List Text) where
  unfoldable pub check_exists : Text → Call (Unit {0})
  unfolding check_path exists
  check_exists path w =
      check_path matches sort exists (str "File or directory {} not found") (expand w path) w

  unfoldable pub check_file : Text → Call (Unit {0})
  unfolding check_path is_file
  check_file path w = check_path matches sort is_file (str "File {} not found") (expand w path) w

  unfoldable pub check_dir : Text → Call (Unit {0})
  unfolding check_path is_dir
  check_dir path w = check_path matches sort is_dir (str "Directory {} not found") (expand w path) w
