-- ===== src/Examples/FileRuns.antt =====
-- The theorems on files, directories, paths, timers and ids, of subrepos/plano/src/plano/main.py, at
-- concrete inputs.
use bsord.Base.{
  ◌≡◌, refl, true, false, none, some, List, [], ◌∷◌, Text, str, text_eq, nat_eq, location_eq,
  Location, ◌==◌, ◌||◌, inl, join_texts, Lacks,
}
use bsord.Base.Dict
use bsord.World.{World, Call, Event, console_out, console_err, ok, pure, regular, directory}
use bsord.Strings.{starts_with, ends_with}
use bsord.Files.Temporary.{Kept, with_temp, with_temp-leaves}
use bsord.Paths.{
  join_two, normpath, join, get_parent_dir, get_base_name, normalize_path, split_path,
}
use bsord.Paths.RoundTrip.{join-split}
use bsord.FileSystem.{is_within, node_at, follow, locate, universal_newlines, path_of}
use bsord.FileSystem.Writing.{CanWrite, written}
use bsord.Environment.{one_path}
use bsord.Commands.{find_file, first_file}
use bsord.Files.{is_dir, is_file, exists, remove}
use bsord.Files.Contents.{read, write, append, write_lines, read_lines, text_lines}
use bsord.Files.Blocks.{in_dir}
use bsord.Files.Writing.{write-read, write_lines-read_lines}
use bsord.Files.Returning.{LeadsTo, in_dir-restores}
use bsord.Files.RemovedPaths.{Removed, remove-Removed}

abbrev home : Location
home = str "home" ∷ []

abbrev note : Location
note = str "home" ∷ str "a" ∷ []

-- A home directory with one file.
abbrev start : World
start = record {
  threshold = 0;
  log_output = none;
  stdout = console_out;
  stderr = console_err;
  is_tty = λ s. false;
  environ = [];
  sys_path = [];
  expansion = λ env path. path;
  current_dir = str "/home";
  files = (home, directory) ∷ (note, regular (str "x")) ∷ [];
  can_open = λ path. true;
  running_commands = [];
  events = [];
}

parent_there :
    (get_parent_dir start (str "a") == [] || exists start (get_parent_dir start (str "a"))) ≡ true
unfolding get_parent_dir text_eq split_path normpath
parent_there = refl

note-CanWrite : CanWrite start (str "a") note
unfolding node_at follow locate location_eq text_eq Dict.lookup starts_with ends_with
note-CanWrite = record { leads = refl; free = inl refl }

write-read_example :
    (write (str "a") (str "hi") start ≡ (ok (str "a"), written note (str "hi") start))
    × (read (str "a") (written note (str "hi") start)
        ≡ (ok (str "hi"), written note (str "hi") start))
    × (append (str "a") (str "hi") start ≡ (ok (str "a"), written note (str "xhi") start))
    × (read (str "a") (written note (str "xhi") start)
        ≡ (ok (str "xhi"), written note (str "xhi") start))
    × (Lacks b'\r' (str "hi") → str "hi" ≡ str "hi")
unfolding universal_newlines node_at location_eq text_eq Dict.lookup
write-read_example = write-read start (str "a") (str "hi") note parent_there note-CanWrite

write_lines-read_lines_example :
    let w' = written note (str "b\nc\n") start in
    (write_lines (str "a") (str "b\n" ∷ str "c\n" ∷ []) start ≡ (ok (str "a"), w'))
    × (read_lines (str "a") w' ≡ (ok (str "b\n" ∷ str "c\n" ∷ []), w'))
    × ((t : Text) → join_texts [] (text_lines t) ≡ t)
unfolding join_texts nat_eq
write_lines-read_lines_example =
    write_lines-read_lines start (str "a") note (str "b" ∷ str "c" ∷ []) parent_there note-CanWrite
      (refl, (refl, tt)) refl

join-split_example :
    join start (get_parent_dir start (str "a/../b//c")) (get_base_name start (str "a/../b//c"))
    ≡ normalize_path start (str "a/../b//c")
join-split_example = join-split start (str "a/../b//c") (λ t. refl)

root-LeadsTo : LeadsTo start (str "/") []
unfolding node_at follow locate location_eq text_eq Dict.lookup starts_with ends_with
root-LeadsTo = record { given = refl; leads = refl; there = refl }

root_exists : (str "/" == [] || exists start (str "/")) ≡ true
unfolding exists node_at locate location_eq text_eq Dict.lookup starts_with ends_with
root_exists = refl

home_path : path_of home ≡ str "/home"
unfolding path_of join_texts
home_path = refl

home-LeadsTo :
    (events : List Event)
    → LeadsTo (record start { events = events; current_dir = path_of [] }) (str "/home") home
unfolding node_at follow locate location_eq text_eq Dict.lookup starts_with ends_with
home-LeadsTo events = record { given = refl; leads = refl; there = refl }

-- In the root directory nothing is done.
in_dir-restores_example :
    (events : List Event) × let (s, w₃) = in_dir (str "/") false false (pure tt) start in
      (s ≡ ok tt)
      × (w₃.current_dir ≡ str "/home")
      × (w₃.files ≡ (home, directory) ∷ (note, regular (str "x")) ∷ [])
unfolding text_eq
in_dir-restores_example =
    in_dir-restores (str "/") false (pure tt) start [] home refl root_exists root-LeadsTo home_path
      home-LeadsTo

-- A file goes.
remove-Removed_example : Removed false note start.files (remove (one_path (str "a")) false start)
unfolding node_at follow locate location_eq text_eq Dict.lookup starts_with ends_with
remove-Removed_example =
    remove-Removed start (str "a") false (str "home") (str "a" ∷ []) refl refl refl

root_is_dir : is_dir start (str "/") ≡ true
unfolding is_dir node_at follow locate location_eq text_eq Dict.lookup starts_with ends_with
root_is_dir = refl

nothing_found : find_file (join start) (is_file start) (str "/") ≡ none
unfolding find_file first_file join normpath is_file node_at follow locate location_eq text_eq
    Dict.lookup starts_with ends_with
nothing_found = refl

abbrev temp_name : World → Text → Text
temp_name w suffix = str "x"

abbrev write_in : Text → Call Text
write_in dir = write (join_two dir (str "b")) (str "y")

abbrev new_dir : Location
new_dir = str "home" ∷ str "plano-x" ∷ []

-- The world after the body.
abbrev after_writing : World
after_writing = record start {
  files =
      (home, directory)
      ∷ (note, regular (str "x"))
      ∷ (new_dir, directory)
      ∷ (str "home" ∷ str "plano-x" ∷ str "b" ∷ [], regular (str "y"))
      ∷ [];
}

after_writing-Kept : Kept after_writing (str "/home/plano-x") new_dir
unfolding node_at follow locate location_eq text_eq Dict.lookup starts_with ends_with
after_writing-Kept = record { expanded = refl; place = refl; plain = refl }

-- The directory goes with the file that the body writes in it; the file beside it stays.
with_temp-leaves_example :
    let (s, w₃) = with_temp (str "/home") (str "me") temp_name true [] none write_in start in
    (s ≡ ok (str "/home/plano-x/b"))
    × (node_at w₃.files new_dir ≡ none)
    × (node_at w₃.files note ≡ some (regular (str "x")))
unfolding write join_two node_at follow locate location_eq text_eq Dict.lookup starts_with ends_with
    split_path normpath is_within
with_temp-leaves_example =
    with_temp-leaves (str "/home") (str "me") temp_name true [] none write_in start after_writing
      (ok (str "/home/plano-x/b")) (str "home") (str "plano-x" ∷ []) note refl refl refl
      after_writing-Kept refl refl
