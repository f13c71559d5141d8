-- ===== src/Files/Copying.antt =====
-- `copy` and `move` of subrepos/plano/src/plano/main.py. A directory is copied by calls of `copy` on
-- what it contains; `depth` is how deep the interpreter lets calls nest, and the call that is one
-- too deep raises `RecursionError`.
use bsord.Base.{
  ℕ, zero, suc, Bool, true, false, ◌&&◌, List, [], ◌∷◌, Text, text_eq, str, ◌==◌, if◌then◌else◌,
  some, location_eq, option_eq,
}
use bsord.World.{Call, Exception, message, quoted, pure, raise, ◌>>=◌, ◌>>◌}
use bsord.Logging.{info_if}
use bsord.Listing.{pattern_text, patterns}
use bsord.Paths.{expand, join, join_two, get_base_name, split_path}
use bsord.Environment.{one_path}
use bsord.FileSystem.{
  stat, followed, is_directory, is_there, os_fail, not_found, os_read, os_write, follow, node_at,
}
use bsord.Files.{is_dir, is_link, make_parent_dir, make_link, read_link, remove, list_dir}

-- Where `shutil.copy2` puts the copy: below the target, if that is a directory.
abbrev copy_target : Text → Text → Bool → Text
copy_target source target true = join_two target (split_path source).1
copy_target source target false = target

-- `shutil.copy2(source, target)`
unfoldable pub os_copy2 : Text → Text → Call (Unit {0})
unfolding os_read os_write follow node_at split_path join_two
os_copy2 source target w =
    let target = copy_target source target (is_directory (stat w target)) in
    (if is_there (stat w source) && (followed w source == followed w target)
        then os_fail (str "SameFileError")
        else os_read source >>= λ s. os_write target (λ old. s))
      w

-- `shutil.copystat(source, target)`, without what it copies.
unfoldable pub os_copystat : Text → Text → Call (Unit {0})
unfolding follow node_at
os_copystat source target w = (if is_there (stat w target) then pure tt else not_found) w

-- `for name in list_dir(from_path): copy(...)`
unfoldable pub each_name : (Text → Call Text) → List Text → Call (Unit {0})
each_name copy_one [] = pure tt
each_name copy_one (name ∷ names) = copy_one name >> each_name copy_one names

-- The target of `copy`, whose parent directory is made unless the target is in a directory.
unfoldable pub target_path : Text → Text → Bool → Call Text
unfolding is_dir join get_base_name make_parent_dir
target_path from_path to_path inside w =
    (if is_dir w to_path && inside
        then pure (join w to_path (get_base_name w from_path))
        else make_parent_dir to_path true >> pure to_path)
      w

module _ (matches : Text → Text → Bool) (sort : List Text → List Text) where
  -- The branches of `copy`, where `copy_one` is its call for a part of a directory.
  unfoldable pub copy_to : (Text → Text → Call Text) → Bool → Text → Text → Call (Unit {0})
  unfolding list_dir each_name os_copystat os_copy2 make_link read_link is_link is_dir join
  copy_to copy_one symlinks from_path to_path w =
      (if is_dir w from_path
          then (do
            names ← list_dir matches sort (some from_path) (pattern_text (str "*")) (patterns [])
            each_name (λ name w. copy_one (join w from_path name) (join w to_path name) w) names
            os_copystat from_path to_path)
          else if is_link w from_path && symlinks
          then (do linked_path ← read_link from_path; make_link to_path linked_path true; pure tt)
          else os_copy2 from_path to_path)
        w

  -- `copy`
  unfoldable pub copy : ℕ → Text → Text → Bool → Bool → Bool → Call Text
  unfolding target_path copy_to
  copy zero from_path to_path symlinks inside quiet w =
      raise (Exception.other (str "RecursionError")) w
  copy (suc depth) from_path to_path symlinks inside quiet w =
      let from_path = expand w from_path in
      let to_path = expand w to_path in
      (do
        info_if quiet (message (str "Copying {} to {}") (quoted from_path ∷ quoted to_path ∷ []))
        to_path ← target_path from_path to_path inside
        copy_to (λ a b w. copy depth a b symlinks false true w) symlinks from_path to_path
        pure to_path)
        w

  -- `move`
  unfoldable pub move : ℕ → Text → Text → Bool → Bool → Call Text
  unfolding copy remove
  move depth from_path to_path inside quiet w =
      let from_path = expand w from_path in
      let to_path = expand w to_path in
      (do
        info_if quiet (message (str "Moving {} to {}") (quoted from_path ∷ quoted to_path ∷ []))
        to_path ← copy depth from_path to_path true inside true
        remove (one_path from_path) true
        pure to_path)
        w
