-- ===== src/Examples/OtherRuns.antt =====
-- The theorems on timers, unique ids and `call`, of subrepos/plano/src/plano/main.py, at concrete inputs.
use bsord.Base.{
  ◌≡◌, refl, arith, ℕ, true, false, Option, none, some, List, [], ◌∷◌, ◌+◌, ◌-◌, ◌*◌, ◌<◌, ◌≤◌, ◌⊎◌,
  Text, str, length,
}
use bsord.World.{World, console_out, console_err, ok, err, Exception, message}
use bsord.Base.{inr}
use bsord.Base.Int.{pos}
use bsord.Processes.{PlanoProcess}
use bsord.Running.{System, command_args, call}
use bsord.Running.Calls.{call-Ends}
use bsord.Timers.{Clock, with_timer, default_handler}
use bsord.Timers.Nesting.{timed, with_timer-restores}
use bsord.Values.{get_unique_id}
use bsord.Values.Ids.{unhexlify, get_unique_id-unhexlify}

abbrev start : World
start = record {
  threshold = 0;
  log_output = none;
  stdout = console_out;
  stderr = console_err;
  is_tty = λ s. false;
  environ = [];
  sys_path = [];
  expansion = λ env path. path;
  current_dir = str "/home";
  files = [];
  can_open = λ path. true;
  running_commands = [];
  events = [];
}

abbrev expiry : Option ℕ
expiry = some 15

-- An outer timer has 10 ticks left.
abbrev clock : Clock
clock = record { now = 5; handler = default_handler; due = expiry }

-- A body that takes 4 ticks.
abbrev work : Clock → Clock
work c = record c { now = c.now + 4 }

with_timer-restores_example :
    let (passed, c') = with_timer (timed 7 none) work clock in
    (passed ≡ true)
    × (c'.handler ≡ default_handler)
    × (c'.now ≡ 9)
    × (expiry ≡ none → c'.due ≡ none)
    × ((t : ℕ) → expiry ≡ some t → 5 < t → c'.due ≡ some (c'.now + (t - 5)))
with_timer-restores_example = with_timer-restores 7 none work clock (omega arith)

abbrev two : ℕ
two = 2

abbrev uuid : List ℕ
uuid = 255 ∷ 16 ∷ 1 ∷ 2 ∷ 3 ∷ 4 ∷ 5 ∷ 6 ∷ 7 ∷ 8 ∷ 9 ∷ 10 ∷ 11 ∷ 12 ∷ 13 ∷ 14 ∷ []

get_unique_id-unhexlify_example :
    (1 ≤ 2
      → 2 ≤ 16
      → (t : Text) × (get_unique_id uuid 2 start ≡ (ok t, start))
        × (length t ≡ 2 * 2)
        × (unhexlify t ≡ 255 ∷ 16 ∷ []))
    × ((two ≡ 0) ⊎ (16 < two)
        → get_unique_id uuid 2 start ≡ (err (Exception.assertion_error (message [] [])), start))
get_unique_id-unhexlify_example = get_unique_id-unhexlify uuid 2 start refl (ground arith)

abbrev proc : PlanoProcess
proc = record { description = str "process 7"; command = str "make all"; stash_file = none }

-- A program that prints its input and fails with the code 2.
abbrev system : System
system = record {
  shlex_split = λ text. some (text ∷ []);
  popen = λ program options w. inr proc;
  communicate = λ p input w. ((input, none), w);
  outcome = λ p. some (pos 2);
  system_temp_dir = str "/tmp";
  user = str "me";
  temp_name = λ w suffix. str "x";
}

call-Ends_example :
    (call system (command_args (str "make" ∷ str "all" ∷ [])) (some (str "in")) false true start).0
    ≡ err (Exception.plano_process_error (pos 2) (message (str "make all") []))
call-Ends_example =
    call-Ends system (command_args (str "make" ∷ str "all" ∷ [])) (str "make" ∷ str "all" ∷ []) refl
      proc (λ program options w. refl) (pos 2) (some (str "in")) (some (str "in")) none refl refl
      (λ w. refl) false true start
