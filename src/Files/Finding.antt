-- ===== src/Files/Finding.antt =====
-- `find` of subrepos/plano/src/plano/main.py. What `os.walk` of a directory goes through, links
-- followed, is the parameter `walk`, `fnmatch`'s test of a name `matches`, and `sorted` is `sort`. A set
-- of paths is the list of its members.
use mathlib.Core.Option
use bsord.Base.{
  Bool, Option, some, List, [], ◌∷◌, ◌++◌, Text, text_eq, ◌==◌, str, map, if◌then◌else◌,
}
use bsord.World.{World}
use bsord.Strings.{starts_with, remove_prefix}
use bsord.Iterables.{unique}
use bsord.Listing.{Patterns, pattern_list, exclude_loop, fnmatch_filter}
use bsord.Paths.{join}

-- What one round of `os.walk` gives.
pub record Walked : Type 0 where
  pub root : Text
  pub dir_names : List Text
  pub file_names : List Text

-- The directories to look in: one may stand for the tuple of itself.
pub data Dirs : Type 0 where
  current : Dirs
  one_dir : Text → Dirs
  all_dirs : List Text → Dirs

unfoldable pub dir_list : Dirs → List Text
dir_list current = str "." ∷ []
dir_list (one_dir dir) = dir ∷ []
dir_list (all_dirs dirs) = dirs

-- The root as the paths that are found begin with it.
unfoldable pub plain_root : Text → Text
unfolding starts_with remove_prefix
plain_root root =
    if starts_with root (str "./")
    then remove_prefix (some root) (str "./")
    else if root == str "."
    then []
    else root

-- `found.update(paths)`
unfoldable pub update : List Text → List Text → List Text
unfolding unique
update found paths = unique (found ++ paths)

module _ (matches : Text → Text → Bool) (w : World) where
  -- The loop over the include patterns, with the names that are left and the root.
  unfoldable pub find_names :
      List Text → List Text → Text → List Text → List Text → Option (List Text)
  unfolding exclude_loop plain_root update join
  find_names [] exclude root names found = some found
  find_names (pattern ∷ include) exclude root names found =
      Option.bind (exclude_loop matches exclude (fnmatch_filter matches names pattern)) λ left.
        let root' = plain_root root in
        find_names include exclude root' left (update found (map (join w root') left))

  unfoldable pub find_walked : List Text → List Text → List Walked → List Text → Option (List Text)
  unfolding find_names
  find_walked include exclude [] found = some found
  find_walked include exclude (walked ∷ rest) found =
      Option.bind
        (find_names include exclude walked.root (walked.dir_names ++ walked.file_names) found)
        (find_walked include exclude rest)

  module _ (walk : Text → List Walked) where
    unfoldable pub find_dirs : List Text → List Text → List Text → List Text → Option (List Text)
    unfolding find_walked
    find_dirs include exclude [] found = some found
    find_dirs include exclude (dir ∷ dirs) found =
        Option.bind (find_walked include exclude (walk dir) found) (find_dirs include exclude dirs)

    -- `find`, with `none` for the `ValueError` of `names.remove(name)`.
    unfoldable pub find : (List Text → List Text) → Dirs → Patterns → Patterns → Option (List Text)
    unfolding find_dirs dir_list
    find sort dirs include exclude =
        Option.map sort (find_dirs (pattern_list include) (pattern_list exclude) (dir_list dirs) [])
