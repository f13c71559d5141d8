-- ===== src/Files/Listed.antt =====
-- What `list_dir` of subrepos/plano/src/plano/main.py returns for a directory of the file system.
use bsord.Base.{
  ◌≡◌, refl, Bool, true, Option, some, List, [], Text, Location, Bool-cases, inl, inr,
  if◌then◌else◌,
}
use bsord.World.{World, ok, err, Exception, message}
use bsord.Listing.{Patterns, pattern_list}
use bsord.Listing.Selection.{selected, list_dir_selects}
use bsord.FileSystem.{followed, node_at, is_directory, child_names, os_listdir}
use bsord.Files.{is_dir, list_dir, listed_dir}

os_listdir-there :
    (w : World) (path : Text) (loc : Location)
    → followed w path ≡ some loc
    → is_directory (node_at w.files loc) ≡ true
    → os_listdir path w ≡ (ok (child_names loc w.files), w)
unfolding os_listdir
os_listdir-there w path loc leads there = rw (leads, there) refl

-- If the path that is given, or that of the current directory for none or an empty one, leads to a directory,
-- `list_dir` changes nothing. Where the path, with its variables expanded, is no directory, it raises an
-- `AssertionError`. Otherwise it returns, sorted, the names in the directory that match every include pattern
-- and no exclude pattern, or all names if there is no include pattern.
pub list_dir-selects :
    (matches : Text → Text → Bool) (sort : List Text → List Text) (dir : Option Text)
    (include exclude : Patterns) (w : World) (loc : Location)
    → followed w (listed_dir dir w) ≡ some loc
    → is_directory (node_at w.files loc) ≡ true
    → list_dir matches sort dir include exclude w ≡ (
      if is_dir w (listed_dir dir w)
          then ok (
              sort (
                selected matches
                  (pattern_list include)
                  (pattern_list exclude)
                  (child_names loc w.files)))
          else err (Exception.assertion_error (message (listed_dir dir w) [])),
      w,
    )
unfolding list_dir
list_dir-selects matches sort dir include exclude w loc leads there =
    let listed = os_listdir-there w (listed_dir dir w) loc leads there in
    let kept = list_dir_selects matches sort include exclude (child_names loc w.files) in
    elim (Bool-cases (is_dir w (listed_dir dir w))) [
      | inl h ↦ rw (h, listed, kept) refl
      | inr h ↦ rw h refl
    ]
