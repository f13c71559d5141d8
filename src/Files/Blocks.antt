-- ===== src/Files/Blocks.antt =====
-- `working_dir`, `temp_dir`, `temp_file` and the calls that make them, of
-- subrepos/plano/src/plano/main.py. What `gettempdir`, `getpass.getuser` and the name generator of
-- `tempfile` give are the parameters `system_temp_dir`, `user` and `temp_name`.
use bsord.Base.{
  Bool, true, false, Option, none, some, [], ◌∷◌, ◌++◌, Text, text_eq, str, ◌==◌, if◌then◌else◌,
}
use bsord.Base.Dict
use bsord.World.{World, Call, message, quoted, pure, when, with_manager, ◌>>=◌, ◌>>◌}
use bsord.Logging.{info_if, debug_if}
use bsord.Paths.{join, join_two, get_absolute_path}
use bsord.Environment.{one_path}
use bsord.FileSystem.{create_node, location}
use bsord.World.{regular, directory}
use bsord.Files.{make_dir, change_dir, remove}

module _ (system_temp_dir user : Text) (temp_name : World → Text → Text) where
  abbrev or_temp_dir : Option Text → Text
  or_temp_dir none = system_temp_dir
  or_temp_dir (some dir) = dir

  -- `get_user_temp_dir`
  unfoldable pub get_user_temp_dir : World → Text
  unfolding Dict.lookup join
  get_user_temp_dir w = elim (Dict.lookup (str "XDG_RUNTIME_DIR") w.environ) [
    | some dir ↦ dir
    | none ↦ join w system_temp_dir user
  ]

  -- The path of a new temporary file or directory.
  abbrev pub temp_path : World → Text → Option Text → Text
  temp_path w suffix dir =
      join_two (or_temp_dir dir) (str "plano-" ++ (temp_name w suffix ++ suffix))

  -- `make_temp_file`
  unfoldable pub make_temp_file : Text → Option Text → Call Text
  unfolding create_node join_two
  make_temp_file suffix dir w =
      let path = temp_path w suffix dir in
      (create_node (location w path) (regular []) >> pure path) w

  -- `make_temp_dir`
  unfoldable pub make_temp_dir : Text → Option Text → Call Text
  unfolding create_node join_two
  make_temp_dir suffix dir w =
      let path = temp_path w suffix dir in (create_node (location w path) directory >> pure path) w

  -- `temp_file.__exit__`, away from Windows
  unfoldable pub remove_temp : Text → Call (Unit {0})
  unfolding remove
  remove_temp path = remove (one_path path) true

  -- `with temp_file(suffix, dir) as file: body`
  unfoldable pub with_temp_file : {A : Type 0} → Text → Option Text → (Text → Call A) → Call A
  unfolding make_temp_file remove_temp
  with_temp_file suffix dir body = with_manager (make_temp_file suffix dir) remove_temp body

  -- `with temp_dir(suffix, dir) as dir: body`
  unfoldable pub with_temp_dir : {A : Type 0} → Text → Option Text → (Text → Call A) → Call A
  unfolding make_temp_dir remove_temp
  with_temp_dir suffix dir body = with_manager (make_temp_dir suffix dir) remove_temp body

  -- `working_dir.__init__`: the directory of the block, and whether it goes at its end.
  unfoldable pub init_dir : Option Text → Call (Text × Bool)
  unfolding make_temp_dir
  init_dir none = make_temp_dir [] none >>= λ dir. pure (dir, true)
  init_dir (some dir) = pure (dir, false)

-- `working_dir.__enter__`, with the directory that was current before.
unfoldable pub enter_dir : Text → Bool → Call (Option Text)
unfolding make_dir change_dir get_absolute_path
enter_dir dir quiet w =
    (if dir == str "." then pure none else (do
      info_if quiet (message (str "Entering directory {}") (quoted (get_absolute_path w dir) ∷ []))
      make_dir dir true
      prev_dir ← change_dir dir true
      pure (some prev_dir)))
      w

-- `working_dir.__exit__`
unfoldable pub exit_dir : Text → Bool → Bool → Option Text → Call (Unit {0})
unfolding change_dir remove get_absolute_path
exit_dir dir removes quiet none w = pure tt w
exit_dir dir removes quiet (some prev_dir) w =
    (do
      debug_if quiet
          (message (str "Returning to directory {}") (quoted (get_absolute_path w prev_dir) ∷ []))
      change_dir prev_dir true
      when removes (remove (one_path dir) true))
      w

-- The block of a `working_dir` whose directory is known.
unfoldable pub in_dir : {A : Type 0} → Text → Bool → Bool → Call A → Call A
unfolding enter_dir exit_dir
in_dir dir removes quiet body =
    with_manager (enter_dir dir quiet) (exit_dir dir removes quiet) (λ prev_dir. body)

-- `with working_dir(dir, quiet=quiet): body`
unfoldable pub with_dir :
    {A : Type 0} → Text → Text → (World → Text → Text) → Option Text → Bool → Call A → Call A
unfolding init_dir in_dir
with_dir system_temp_dir user temp_name dir quiet body =
    init_dir system_temp_dir user temp_name dir >>= λ made. in_dir made.0 made.1 quiet body
