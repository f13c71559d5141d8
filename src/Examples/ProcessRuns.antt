-- ===== src/Examples/ProcessRuns.antt =====
-- The theorems on processes and waiting, of subrepos/plano/src/plano/main.py, at concrete inputs.
use bsord.Base.{◌≡◌, refl, true, false, none, some, [], ◌∷◌, str, text_eq, eqb, arith}
use bsord.World.{World, console_out, console_err, ok}
use bsord.Processes.{PlanoProcess}
use bsord.Waiting.{await}
use bsord.Waiting.Periods.{await-ends}

abbrev start : World
start = record {
  threshold = 0;
  log_output = none;
  stdout = console_out;
  stderr = console_err;
  is_tty = λ s. false;
  environ = [];
  sys_path = [];
  expansion = λ env path. path;
  current_dir = str "/home";
  files = [];
  can_open = λ path. true;
  running_commands = [];
  events = [];
}

abbrev proc : PlanoProcess
proc = record { description = str "process 7"; command = str "make"; stash_file = some (str "t") }

await-ends_example : await 9 (λ i. eqb i 2) (str "late") ≡ (ok tt, 1 ∷ 2 ∷ [])
await-ends_example = await-ends 9 (some 2) (λ i. eqb i 2) (str "late") (λ j h. ground arith, refl)
