-- ===== src/Examples/SearchRuns.antt =====
-- The theorems on waiting, durations, `find` and the panic handler at concrete inputs.
use bsord.Base.{
  ℕ, suc, ◌≡◌, refl, Bool, true, false, none, some, List, [], ◌∷◌, Text, str, text_eq, contains,
  eqb, All, arith, if◌then◌else◌, ◌==◌,
}
use bsord.Base.Int.{pos}
use bsord.Base.{nat_eq}
use bsord.World.{World, console_out, console_err, ok, regular, directory}
use bsord.Iterables.Reference.{IsUnique}
use bsord.Listing.{patterns, pattern_text}
use bsord.Base.{location_eq}
use bsord.Base.Dict
use bsord.FileSystem.{child_names, node_at, follow, locate}
use bsord.Files.{is_dir, list_dir}
use bsord.Files.Listed.{list_dir-selects}
use bsord.Timers.{Clock, default_handler}
use bsord.Waiting.Periods.{IsFirst}
use bsord.Waiting.Deadlines.{await_timed, await_timed-ends, reached}
use bsord.Durations.{format_duration}
use bsord.Strings.{starts_with, ends_with, remove_suffix}
use bsord.Files.Finding.{Walked, current, dir_list, plain_root, find}
use bsord.Files.Found.{is_found, find-selects}
use bsord.Panic.{Unwinder, Line, print_registers, print_backtrace, print_frame_registers}
use bsord.Panic.Marks.{AllAbove, IsOf, IsShown, print_registers-marks}

abbrev start : World
start = record {
  threshold = 2;
  log_output = none;
  stdout = console_out;
  stderr = console_err;
  is_tty = λ s. false;
  environ = [];
  sys_path = [];
  expansion = λ env path. path;
  current_dir = str "/home";
  files = [];
  can_open = λ path. true;
  running_commands = [];
  events = [];
}

abbrev clock : Clock
clock = record { now = 5; handler = default_handler; due = none }

-- The third check succeeds.
abbrev third : ℕ → Bool
third i = eqb i 2

third-IsFirst : IsFirst third (some 2)
third-IsFirst = (λ j h. ground arith, refl)

await_timed-ends_example :
    (c' : Clock) × (await_timed third (λ i. 1) (str "late") 6 (some 1) clock ≡ some (ok tt, c'))
    × (c'.now ≡ 11)
    × (c'.handler ≡ default_handler)
unfolding reached
await_timed-ends_example =
    await_timed-ends third (λ i. 1) (str "late") 1 clock (some 2) third-IsFirst (omega arith)
      (omega arith)

three_checks :
    await_timed third (λ i. 1) (str "late") 6 (some 1) clock
    ≡ some (ok tt, record { now = 11; handler = default_handler; due = none })
unfolding await_timed
three_checks = refl

short_durations :
    (format_duration false (pos 4350) 10 ≡ ok (str "7.2m"))
    × (format_duration false (pos 70) 10 ≡ ok (str "7s"))
    × (format_duration true (pos 36000) 1 ≡ ok (str "10.0h"))
    × (format_duration false (pos 2995) 10 ≡ ok (str "300s"))
unfolding format_duration remove_suffix ends_with text_eq nat_eq
short_durations = (refl, refl, refl, refl)

abbrev walk : Text → List Walked
walk dir =
    record { root = str "."; dir_names = str "d" ∷ []; file_names = str "a" ∷ str "b" ∷ [] }
    ∷ record { root = str "./d"; dir_names = []; file_names = str "a" ∷ [] }
    ∷ []

-- A pattern that only matches itself.
abbrev same : Text → Text → Bool
same name pattern = name == pattern

abbrev two_patterns : List Text
two_patterns = str "a" ∷ str "b" ∷ []

find-selects_example :
    (found : List Text) × (find same start walk
        (λ names. names)
        current
        (patterns two_patterns)
        (patterns [])
      ≡ some found)
    × IsUnique found
    × ((a : Text) → contains found a ≡ is_found same start [] (str "a") walk (str "." ∷ []) a)
unfolding dir_list plain_root text_eq
find-selects_example =
    find-selects same start walk (λ names. names) current (patterns two_patterns) (patterns [])
      (str "a") (str "b" ∷ []) refl ((refl, (refl, tt)), tt)

-- Of five frames the third is in the program.
abbrev frames : Unwinder (Unit {0}) ℕ
frames = record {
  init_local = λ context. (pos 0, 0);
  step = λ cursor. (if eqb cursor 5 then pos 0 else pos 1, suc cursor);
  get_ip = λ cursor. if eqb cursor 3 then 4096 else 0x7fffffffffff;
  get_sp = λ cursor. cursor;
  get_register = λ register cursor. cursor;
}

abbrev no_digits : ℕ → Text
no_digits n = str "1000"

abbrev third_registers : List Line
third_registers = print_frame_registers frames false 3

print_registers-marks_example :
    All
      (IsOf frames no_digits (str "server") 0 2)
      (print_backtrace frames no_digits (str "server") tt 2)
    × AllAbove frames 2 0
    × IsShown frames no_digits (str "server") 0 2 false third_registers tt
unfolding print_registers
print_registers-marks_example =
    print_registers-marks frames no_digits (str "server") false tt 2 third_registers refl refl

marked_backtrace :
    print_backtrace frames no_digits (str "server") tt 2
    ≡ Line.backtrace_title
      ∷ Line.frame 0 0x7fffffffffff 1 []
      ∷ Line.frame 1 0x7fffffffffff 2 []
      ∷ Line.frame 2 4096 3 (str " # addr2line -a 0x1000 -e server")
      ∷ Line.frame 3 0x7fffffffffff 4 []
      ∷ Line.frame 4 0x7fffffffffff 5 []
      ∷ []
unfolding print_backtrace
marked_backtrace = refl

abbrev listed : World
listed = record start {
  files =
      (str "home" ∷ [], directory)
      ∷ (str "home" ∷ str "b" ∷ [], regular [])
      ∷ (str "home" ∷ str "a" ∷ [], regular [])
      ∷ [];
}

list_dir-selects_example :
    list_dir
      (λ name pattern. name == pattern)
      (λ l. l)
      none
      (pattern_text (str "a"))
      (patterns (str "b" ∷ []))
      listed
    ≡ (ok (str "a" ∷ []), listed)
unfolding child_names text_eq is_dir node_at follow locate location_eq Dict.lookup starts_with
    ends_with
list_dir-selects_example =
    list_dir-selects (λ name pattern. name == pattern) (λ l. l) none (pattern_text (str "a"))
      (patterns (str "b" ∷ [])) listed (str "home" ∷ []) refl refl
