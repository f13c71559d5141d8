-- ===== src/Running/Archives.antt =====
-- The archive operations of subrepos/plano/src/plano/main.py, which run `tar` in a directory, and
-- the `copy`, `move` and `remove` that they call. `found` is what `which` finds; `depth` is how
-- deep calls of `copy` nest.
use bsord.Base.{ℕ, Bool, true, false, Option, none, some, List, [], ◌∷◌, ◌++◌, Text, str, get_elem?}
use bsord.World.{
  World, Call, Exception, message, quoted, pure, gets, or_raise, after_leave, ◌>>=◌, ◌>>◌,
}
use bsord.Logging.{info_if}
use bsord.Listing.{pattern_text, patterns}
use bsord.Paths.{join, get_base_name, get_parent_dir, get_absolute_path}
use bsord.Environment.{check_program, one_path}
use bsord.Files.{list_dir, remove}
use bsord.Files.Copying.{copy, move}
use bsord.Files.Blocks.{with_dir}
use bsord.Running.{System, command_text, no_stream, run}

-- `try: body finally: last()`
abbrev pub with_finally : {A : Type 0} → Call A → Call (Unit {0}) → Call A
with_finally body last w = let (result, w₁) = body w in after_leave result (last w₁)

abbrev pub temp_archive : Text
temp_archive = str "temp.tar.gz"

module _ (found : Text → Bool) (sys : System) (matches : Text → Text → Bool)
    (sort : List Text → List Text) (depth : ℕ) where
  -- `run(command)`
  abbrev pub run_tar : Text → Call (Unit {0})
  run_tar command =
      run sys (command_text command) no_stream no_stream no_stream none no_stream false false true
        false
      >> pure tt

  -- `working_dir(dir)`, and `working_dir()` for `none`
  abbrev pub in_working_dir : {A : Type 0} → Option Text → Call A → Call A
  in_working_dir dir body = with_dir sys.system_temp_dir sys.user sys.temp_name dir false body

  abbrev pub archive_of : World → Option Text → Text → Text
  archive_of w none stem = join w w.current_dir stem ++ str ".tar.gz"
  archive_of w (some path) stem = path

  -- `make_archive`
  unfoldable pub make_archive : Text → Option Text → Bool → Call Text
  unfolding check_program get_base_name get_parent_dir join run with_dir move
  make_archive input_dir output_file quiet = do
    check_program found (str "tar") none
    archive_stem ← gets (λ w. get_base_name w input_dir)
    output_file ← gets (λ w. archive_of w output_file archive_stem)
    info_if quiet (
        message (str "Making archive {} from directory {}")
          (quoted output_file ∷ quoted input_dir ∷ []))
    parent_dir ← gets (λ w. get_parent_dir w input_dir)
    in_working_dir (some parent_dir) (do
      run_tar (str "tar -czf temp.tar.gz " ++ archive_stem)
      move matches sort depth temp_archive output_file true false)
    pure output_file

  abbrev pub or_current_dir : World → Option Text → Text
  or_current_dir w none = w.current_dir
  or_current_dir w (some dir) = dir

  -- `extract_archive`
  unfoldable pub extract_archive : Text → Option Text → Bool → Call Text
  unfolding check_program get_absolute_path run with_dir copy remove
  extract_archive input_file output_dir quiet = do
    check_program found (str "tar") none
    output_dir ← gets (λ w. or_current_dir w output_dir)
    info_if quiet (
        message (str "Extracting archive {} to directory {}")
          (quoted input_file ∷ quoted output_dir ∷ []))
    input_file ← gets (λ w. get_absolute_path w input_file)
    in_working_dir (some output_dir) (do
      copy matches sort depth input_file temp_archive true true false
      with_finally (run_tar (str "tar -xf temp.tar.gz")) (remove (one_path temp_archive) false))
    pure output_dir

  -- `rename_archive`
  unfoldable pub rename_archive : Text → Text → Bool → Call Text
  unfolding extract_archive make_archive get_absolute_path get_parent_dir join list_dir move remove
      with_dir
  rename_archive input_file new_archive_stem quiet = do
    info_if quiet (
        message (str "Renaming archive {} with stem {}")
          (quoted input_file ∷ quoted new_archive_stem ∷ []))
    output_dir ← gets (λ w. get_absolute_path w (get_parent_dir w input_file))
    output_file ← gets (λ w. join w output_dir new_archive_stem ++ str ".tar.gz")
    input_file ← gets (λ w. get_absolute_path w input_file)
    in_working_dir none (do
      extract_archive input_file none false
      names ← list_dir matches sort none (pattern_text (str "*")) (patterns [])
      input_name ← or_raise (get_elem? names 0) Exception.index_error
      input_dir ← move matches sort depth input_name new_archive_stem true false
      make_archive input_dir (some output_file) false)
    remove (one_path input_file) false
    pure output_file
