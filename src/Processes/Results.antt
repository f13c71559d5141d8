-- ===== src/Processes/Results.antt =====
-- What waiting for a process and stopping one result in.
use bsord.Base.{Bool, ◌&&◌, Option, none, some, List, [], ◌∷◌, ◌++◌, Text, if◌then◌else◌}
use bsord.Base.Int.{ℤ}
use bsord.World.{
  World, Result, ok, err, Exception, Event, printed, removed, terminated, message, Sink,
}
use bsord.Processes.{PlanoProcess, is_positive}

-- What `wait` returns or raises for a process that has ended.
abbrev checked : PlanoProcess → Bool → ℤ → Result ℤ
checked proc check exit_code =
    if check && is_positive exit_code
    then err (Exception.plano_process_error exit_code (message proc.command []))
    else ok exit_code

-- What `wait` does with the stash file: it is printed if the exit code is positive, and removed if
-- it exists.
abbrev pub stash_effects : (Text → Bool) → (Text → Text) → Sink → Option Text → ℤ → List Event
stash_effects exists read s none exit_code = []
stash_effects exists read s (some path) exit_code =
    (if is_positive exit_code then printed s (message (read path) []) ∷ [] else [])
    ++ (if exists path then removed path ∷ [] else [])

-- What `stop` returns or raises.
abbrev stopped : Option ℤ → Option ℤ → Result ℤ
stopped (some exit_code) outcome = ok exit_code
stopped none none = err (Exception.plano_timeout none)
stopped none (some exit_code) = ok exit_code

module _ (exists : Text → Bool) (read : Text → Text) (s : Sink) where
  -- What it does but for log entries.
  abbrev stop_effects : Option ℤ → Option ℤ → PlanoProcess → List Event
  stop_effects (some exit_code) outcome proc = []
  stop_effects none none proc = terminated proc.description ∷ []
  stop_effects none (some exit_code) proc =
      terminated proc.description ∷ stash_effects exists read s proc.stash_file exit_code
