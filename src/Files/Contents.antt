-- ===== src/Files/Contents.antt =====
-- The operations of subrepos/plano/src/plano/main.py on the contents of files: whole texts, lines,
-- `touch`, `concatenate` and `replace_in_file`.
use bsord.Base.{
  ℕ, zero, suc, ◌-◌, Bool, true, false, not, List, [], ◌∷◌, ◌++◌, Text, text_eq, str, eqb,
  if◌then◌else◌, prepend_first, join_texts, contains, drop, length,
}
use bsord.World.{Call, message, quoted, pure, gets, assert, when, ◌>>=◌, ◌>>◌}
use bsord.Logging.{info_if}
use bsord.Paths.{expand}
use bsord.FileSystem.{os_read, os_write, universal_newlines, stat, is_there, follow, node_at}
use bsord.Files.{make_parent_dir, exists}

-- `read`, whose `open` translates the line ends.
unfoldable pub read : Text → Call Text
unfolding os_read universal_newlines
read path w = (do s ← os_read (expand w path); pure (universal_newlines false s)) w

-- What `write` and `append` share: a file in a directory that is made if need be gets new contents.
unfoldable pub write_with : Text → (Text → Text) → Call Text
unfolding make_parent_dir os_write
write_with path change = do make_parent_dir path true; os_write path change; pure path

-- `write`
unfoldable pub write : Text → Text → Call Text
unfolding write_with
write path s w = write_with (expand w path) (λ old. s) w

-- `append`
unfoldable pub append : Text → Text → Call Text
unfolding write_with
append path s w = write_with (expand w path) (λ old. old ++ s) w

-- `prepend`
unfoldable pub prepend : Text → Text → Call Text
unfolding read write
prepend path s w = let path = expand w path in (do orig ← read path; write path (s ++ orig)) w

-- `f.readlines()` of a text: each line keeps its line end.
unfoldable pub text_lines : Text → List Text
text_lines [] = []
text_lines (c ∷ t) =
    let rest = text_lines t in if eqb c b'\n' then (c ∷ []) ∷ rest else prepend_first c rest

-- What `f.writelines(lines)` writes.
abbrev pub written_lines : List Text → Text
written_lines lines = join_texts [] lines

-- `read_lines`
unfoldable pub read_lines : Text → Call (List Text)
unfolding read text_lines
read_lines path w = (do s ← read path; pure (text_lines s)) w

-- `write_lines`
unfoldable pub write_lines : Text → List Text → Call Text
unfolding write_with join_texts
write_lines path lines w = write_with (expand w path) (λ old. written_lines lines) w

-- `append_lines`
unfoldable pub append_lines : Text → List Text → Call Text
unfolding write_with join_texts
append_lines path lines w = write_with (expand w path) (λ old. old ++ written_lines lines) w

-- `prepend_lines`
unfoldable pub prepend_lines : Text → List Text → Call Text
unfolding read_lines write_with join_texts
prepend_lines path lines w =
    let path = expand w path in
    (do
      orig_lines ← read_lines path
      write_with path (λ old. written_lines lines ++ written_lines orig_lines))
      w

-- `lines[-count:]`, which is the whole list if `count` is 0.
unfoldable pub last_lines : List Text → ℕ → List Text
last_lines lines zero = lines
last_lines lines (suc count) = drop (length lines - suc count) lines

-- `tail_lines`, for a count that is no negative number.
unfoldable pub tail_lines : Text → ℕ → Call (List Text)
unfolding read_lines last_lines
tail_lines path count = do lines ← read_lines path; pure (last_lines lines count)

-- `tail`
unfoldable pub tail : Text → ℕ → Call Text
unfolding tail_lines join_texts
tail path count w = (do lines ← tail_lines (expand w path) count; pure (join_texts [] lines)) w

-- `touch`: the time of a file that is there is left out.
unfoldable pub touch : Text → Bool → Call Text
unfolding append follow node_at
touch path quiet w =
    let path = expand w path in
    (do
      info_if quiet (message (str "Touching {}") (quoted path ∷ []))
      there ← gets (λ w. is_there (stat w path))
      when (not there) (append path [] >> pure tt)
      pure path)
      w

-- One round of the loop of `concatenate`.
unfoldable pub append_input : Text → Text → Call (Unit {0})
unfolding exists os_read os_write
append_input path input_file w =
    (if not (exists w input_file)
        then pure tt
        else (do s ← os_read input_file; os_write path (λ old. old ++ s)))
      w

unfoldable pub append_inputs : Text → List Text → Call (Unit {0})
unfolding append_input
append_inputs path [] = pure tt
append_inputs path (input_file ∷ input_files) =
    append_input path input_file >> append_inputs path input_files

-- `concatenate`
unfoldable pub concatenate : Text → List Text → Call Text
unfolding make_parent_dir os_write append_inputs
concatenate path input_files w =
    let path = expand w path in
    (do
      assert (not (contains input_files path)) (message [] [])
      make_parent_dir path true
      os_write path (λ old. [])
      append_inputs path input_files
      pure path)
      w

-- `replace_in_file`, where `sub` is `re.sub` with its pattern, replacement and count.
unfoldable pub replace_in_file : (Text → Text) → Text → Call Text
unfolding read write
replace_in_file sub path w = let path = expand w path in (do s ← read path; write path (sub s)) w
