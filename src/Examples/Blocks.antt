-- ===== src/Examples/Blocks.antt =====
-- The theorems on `with` blocks, logging and the console at concrete inputs.
use bsord.Base.{
  ℕ, ◌≡◌, ◌≢◌, refl, sym, true, false, none, some, List, [], ◌∷◌, Text, str, arith, text_eq,
  if◌then◌else◌,
}
use mathlib.Core.Path.{subst}
use bsord.Base.Dict.{lookup, has}
use bsord.World.{
  World, Call, Arg, shown, console_out, console_err, file, ok, err, Exception, message, formatted,
  LogMessage, printed, Event, pure,
}
use bsord.Logging.{no_output, path, with_logging, index_of}
use bsord.Logging.Entries.{log_all, log_all-filter}
use bsord.Logging.Restores.{with_logging-restores, with_logging_leaks_output, with_logging_unopened}
use bsord.Console.{
  with_color, get_color_code, color_reset, with_output_redirected, enter_redirected,
}
use bsord.Console.Colors.{with_color_balanced}
use bsord.Console.Redirection.{with_output_redirected-restores}
use bsord.Environment.{Env, enter_env, with_env}
use bsord.Environment.WorkingEnv.{entered, lookup-entered, with_env-restores}

abbrev start : World
start = record {
  threshold = 2;
  log_output = none;
  stdout = console_out;
  stderr = console_err;
  is_tty = λ s. true;
  environ = (str "A", str "1") ∷ (str "B", str "2") ∷ [];
  sys_path = str "/lib" ∷ [];
  expansion = λ env path. path;
  current_dir = str "/home";
  files = [];
  can_open = λ path. true;
  running_commands = [];
  events = [];
}

-- A body that changes much and raises.
abbrev wild : Call (Unit {0})
wild w = (
  err (Exception.other (str "boom")),
  record w { threshold = 0; log_output = some console_out; stdout = console_err; sys_path = [] },
)

abbrev calls : List (ℕ × LogMessage)
calls = (1, formatted (message (str "low") [])) ∷ (4, formatted (message (str "high") [])) ∷ []

log_all-filter_example : log_all calls start ≡ (
  ok tt,
  record start { events = Event.logged console_err 4 (formatted (message (str "high") [])) ∷ [] },
)
log_all-filter_example = log_all-filter calls start

with_logging-restores_example :
    let (r, w') = with_logging (str "debug") no_output wild start in
    (r ≡ err (Exception.other (str "boom")))
    × (w'.threshold ≡ 2)
    × (◌≢◌ {A = ℕ} 2 5 → w'.log_output ≡ none)
unfolding text_eq
with_logging-restores_example =
    with_logging-restores (str "debug") no_output wild start refl (omega arith) refl

with_logging_leaks_output_example :
    (with_logging
      (str "debug")
      (path (str "log"))
      (pure tt)
      (record start { threshold = 5 })).1.log_output
    ≡ some (file (str "log"))
unfolding text_eq
with_logging_leaks_output_example =
    with_logging_leaks_output (str "debug") (path (str "log")) (pure tt)
      (record start { threshold = 5 }) refl refl refl refl (λ v. refl)

abbrev read_only : World
read_only = record start { can_open = λ path. false }

with_logging_unopened_example :
    let (r, w') = with_logging (str "debug") (path (str "log")) wild read_only in
    (r ≡ err (Exception.os_error (str "OSError"))) × (w'.threshold ≡ 0) × (w'.log_output ≡ none)
unfolding text_eq index_of
with_logging_unopened_example =
    with_logging_unopened (str "debug") (str "log") wild read_only 0 refl refl refl (omega arith)
      refl

cyan_known : get_color_code (str "cyan") false ≡ some (0x1b ∷ str "[36m")
unfolding get_color_code text_eq
cyan_known = refl

with_color_balanced_example : with_color (some (str "cyan")) false console_out wild start ≡ (
  err (Exception.other (str "boom")),
  record start {
    threshold = 0;
    log_output = some console_out;
    stdout = console_err;
    sys_path = [];
    events =
        printed console_out (message (0x1b ∷ str "[36m") [])
        ∷ printed console_out (message color_reset [])
        ∷ [];
  },
)
with_color_balanced_example =
    with_color_balanced (str "cyan") (0x1b ∷ str "[36m") false console_out wild start cyan_known

with_output_redirected-restores_example :
    let inside = (enter_redirected (path (str "out")) true start).1 in
    let (r, w') = with_output_redirected (path (str "out")) true wild start in
    (w'.stdout ≡ console_out)
    × (w'.stderr ≡ console_err)
    × ((inside.stdout ≡ file (str "out"))
        × (inside.stderr ≡ file (str "out"))
        × (r ≡ err (Exception.other (str "boom"))))
with_output_redirected-restores_example =
    with_output_redirected-restores (str "out") true wild start

abbrev total : Text × List Arg
total = (str "Total", shown (str "3") ∷ [])

abbrev failed : Text × List Arg
failed = (str "Failed", shown (str "0") ∷ [])

abbrev changes : Env
changes = (str "B", str "3") ∷ (str "C", str "4") ∷ []

-- A body that sets a variable of its own.
abbrev sets_more : Call (Unit {0})
sets_more w = (ok tt, record w { environ = (str "D", str "5") ∷ w.environ })

lookup-entered_example : lookup (str "A") (entered changes false start).environ ≡ none
unfolding text_eq has
lookup-entered_example =
    lookup-entered changes false start (str "A") (refl, (refl, tt)) (refl, (refl, tt))

abbrev amended : Env
amended = (str "A", str "1") ∷ (str "B", str "3") ∷ (str "C", str "4") ∷ []

changes_made : (entered changes true start).environ ≡ amended
unfolding enter_env text_eq
changes_made = refl

has-amended : (n : Text) → has n changes ≡ true → has n ((str "D", str "5") ∷ amended) ≡ true
unfolding has
has-amended n h = ground arith

keeps_changes :
    (n : Text)
    → has n changes ≡ true
    → has n (sets_more (entered changes true start)).1.environ ≡ true
keeps_changes n h =
    subst (λ (env : Env). has n ((str "D", str "5") ∷ env) ≡ true) (sym changes_made)
      (has-amended n h)

with_env-restores_example :
    let (r, w') = with_env changes true sets_more start in
    (r ≡ ok tt)
    × ((n : Text)
        → lookup n w'.environ ≡ (
            if has n start.environ
            then lookup n start.environ
            else if has n changes
            then none
            else lookup n (sets_more (entered changes true start)).1.environ))
unfolding text_eq has
with_env-restores_example =
    with_env-restores changes true sets_more start (refl, (refl, tt)) (refl, (refl, tt))
      keeps_changes
