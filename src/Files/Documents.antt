-- ===== src/Files/Documents.antt =====
-- The JSON and YAML operations of subrepos/plano/src/plano/main.py on files. `loads` and `dumps` are
-- the library's functions, `loads` with `none` where it raises; `found` tells whether the module is
-- found.
use bsord.Base.{Bool, false, Option, some, Text, str}
use bsord.World.{Call, Exception, pure, gets, or_raise, ◌>>=◌, ◌>>◌}
use bsord.Paths.{expand, get_absolute_path}
use bsord.World.{World}
use bsord.Base.{◌++◌}
use bsord.Environment.{check_module}
use bsord.FileSystem.{os_read, universal_newlines}
use bsord.Files.Contents.{write_with}

-- `get_file_url`
unfoldable pub get_file_url : World → Text → Text
unfolding get_absolute_path
get_file_url w path = str "file:" ++ get_absolute_path w (expand w path)

-- What `open(path)` reads.
unfoldable pub open_text : Text → Call Text
unfolding os_read universal_newlines
open_text path = os_read path >>= λ s. pure (universal_newlines false s)

module _ {Data : Type 0} (loads : Text → Option Data) (dumps : Data → Text) where
  -- What a text stands for.
  unfoldable pub parse : Text → Call Data
  parse text = or_raise (loads text) Exception.value_error

  -- `read_json`
  unfoldable pub read_json : Text → Call Data
  unfolding open_text parse
  read_json path w = (open_text (expand w path) >>= parse) w

  -- `write_json`
  unfoldable pub write_json : Text → Data → Call Text
  unfolding write_with
  write_json path json w = write_with (expand w path) (λ old. dumps json) w

  module _ (found : Text → Bool) where
    -- `check_module("yaml", "To install it, run 'pip install pyyaml'")`
    unfoldable pub check_yaml : Call (Unit {0})
    unfolding check_module
    check_yaml =
        check_module found (str "yaml") (some (str "To install it, run 'pip install pyyaml'"))

    -- `read_yaml`
    unfoldable pub read_yaml : Text → Call Data
    unfolding check_yaml open_text parse
    read_yaml path =
        check_yaml >> (gets (λ w. expand w path) >>= λ file_path. open_text file_path >>= parse)

    -- `write_yaml`
    unfoldable pub write_yaml : Text → Data → Call Text
    unfolding check_yaml write_with
    write_yaml path yaml =
        check_yaml
        >> (gets (λ w. expand w path) >>= λ file_path. write_with file_path (λ old. dumps yaml))

    -- `parse_yaml`
    unfoldable pub parse_yaml : Text → Call Data
    unfolding check_yaml parse
    parse_yaml yaml = check_yaml >> parse yaml

    -- `emit_yaml`
    unfoldable pub emit_yaml : Data → Call Text
    unfolding check_yaml
    emit_yaml yaml = check_yaml >> pure (dumps yaml)
