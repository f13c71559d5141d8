-- ===== src/Commands/Loading.antt =====
-- `PlanoCommand._load_file` and `_load_module` of subrepos/plano/src/plano/command.py. `exec_module`
-- is the run of a file as a module, `import_module` the import of a module, with `none` where it is
-- not found, and `text_of` the text of an exception. The table of modules is left out.
use bsord.Base.{
  ◌≡◌, ap, ◌∙◌, Bool, true, false, not, Option, none, some, [], ◌∷◌, Text, str, if◌then◌else◌,
}
use bsord.World.{
  World, Call, Result, ok, err, Exception, is_exception, message, shown, raised, pure, modify, ◌>>◌,
}
use bsord.Logging.{debug, error}
use bsord.Paths.{join, get_parent_dir}
use bsord.Files.{is_dir, is_file}
use bsord.Processes.{exit, exit_text}
use bsord.Commands.{find_file}

-- The file in a directory, and a path that is none as it is.
unfoldable pub file_at : World → Text → Option Text
unfolding find_file is_dir is_file join
file_at w path = if is_dir w path then find_file (join w) (is_file w) path else some path

-- `path` is given and no file.
abbrev is_missing : World → Option Text → Bool
is_missing w none = false
is_missing w (some path) = not (is_file w path)

abbrev given_text : Option Text → Text
given_text none = []
given_text (some path) = path

abbrev or_found : World → Option Text → Option Text
or_found w none = find_file (join w) (is_file w) w.current_dir
or_found w (some path) = some path

-- The path that `load_file` goes on with: a directory stands for the file in it.
abbrev chosen : World → Option Text → Option Text
chosen w none = none
chosen w (some path) = file_at w path

module _ {Module : Type 0} (text_of : Exception → Text) where
  -- `except Exception as e: error(e); exit("Failure loading {}: {}", path, str(e))`
  abbrev loaded : Text → Result Module × World → Result (Option Module) × World
  loaded path (ok m, w) = (ok (some m), w)
  loaded path (err e, w) =
      (if is_exception e
          then (error (raised e)
              >> exit text_of
                  (exit_text
                    (message (str "Failure loading {}: {}") (shown path ∷ shown (text_of e) ∷ [])))
                  false)
          else (λ w. (err e, w)))
        w

  -- The part of `_load_file` for a path that is a file.
  unfoldable pub load_path : (Text → Call Module) → Text → Call (Option Module)
  unfolding join get_parent_dir
  load_path exec_module path w =
      (do
        debug (message (str "Loading '{}'") (shown path ∷ []))
        modify (λ w. record w {
          sys_path = join w (get_parent_dir w path) (str "python") ∷ w.sys_path;
        })
        (λ w. loaded path (exec_module path w)))
        w

  abbrev load_found : (Text → Call Module) → Option Text → Call (Option Module)
  load_found exec_module none = pure none
  load_found exec_module (some path) = load_path exec_module path

  -- `_load_file` after a directory has been replaced by the file in it.
  unfoldable pub load_chosen : (Text → Call Module) → Option Text → Call (Option Module)
  unfolding load_path find_file is_file join exit
  load_chosen exec_module path w =
      (if is_missing w path
          then exit text_of
              (exit_text (message (str "File '{}' not found") (shown (given_text path) ∷ []))) false
          else load_found exec_module (or_found w path))
        w

  -- `_load_file`
  unfoldable pub load_file : (Text → Call Module) → Option Text → Call (Option Module)
  unfolding load_chosen file_at
  load_file exec_module path w = load_chosen exec_module (chosen w path) w

  -- `_load_module`
  unfoldable pub load_module : (Text → Option Module) → Text → Call Module
  unfolding exit
  load_module import_module name = elim (import_module name) [
    | some m ↦ pure m
    | none ↦
        exit text_of (exit_text (message (str "Module '{}' not found") (shown name ∷ []))) false
  ]

  -- A directory that holds none of the files that commands are loaded from is passed over: they are
  -- then loaded as if no path had been given, from the current directory.
  pub load_file-empty_dir :
      (exec_module : Text → Call Module) (path : Text) (w : World)
      → is_dir w path ≡ true
      → find_file (join w) (is_file w) path ≡ none
      → load_file exec_module (some path) w ≡ load_file exec_module none w
  unfolding load_file file_at
  load_file-empty_dir exec_module path w d e =
      ap (λ p. load_chosen exec_module p w)
        (ap (λ (b : Bool). if b then find_file (join w) (is_file w) path else some path) d ∙ e)
