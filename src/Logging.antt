-- ===== src/Logging.antt =====
-- The logging operations of subrepos/plano/src/plano/main.py: the threshold and the output are
-- process-wide, and `logging_enabled` and `logging_disabled` set them for a `with` block.
-- Entries are kept unrendered: program name, colour and traceback are left out.
pub mod Entries
pub mod Restores
use bsord.Base.{ℕ, zero, suc, Bool, Option, none, some, List, [], ◌∷◌, ◌++◌, Text, text_eq, ◌==◌}
use bsord.Base.{contains, get_elem?, str, leb, if◌then◌else◌}
use mathlib.Core.Option
use bsord.World.{
  World, Call, Exception, Sink, file, Arg, shown, quoted, stream, Message, message, LogMessage,
  formatted, raised, logged, opened, pure, raise, gets, or_raise, modify, assert, with_manager,
  ◌>>=◌, ◌>>◌,
}

abbrev pub logging_levels : List Text
logging_levels =
    str "debug" ∷ str "info" ∷ str "notice" ∷ str "warn" ∷ str "error" ∷ str "disabled" ∷ []

-- `levels.index(level)`
unfoldable pub index_of : List Text → Text → Option ℕ
index_of [] level = none
index_of (l ∷ levels) level = if l == level then some 0 else Option.map suc (index_of levels level)

-- What `output` may be: `None`, a path, which is opened for writing, or an open stream.
pub data OutputArg : Type 0 where
  no_output : OutputArg
  path : Text → OutputArg
  opened_stream : Sink → OutputArg

-- `nvl(_logging_output, sys.stderr)`
abbrev pub log_sink : World → Sink
log_sink w = elim w.log_output [ none ↦ w.stderr | some s ↦ s ]

unfoldable pub print_message : ℕ → LogMessage → Call (Unit {0})
print_message level m w =
    modify (λ w. record w { events = w.events ++ logged (log_sink w) level m ∷ [] }) w

-- `log` at a level given by its index.
unfoldable pub log : ℕ → LogMessage → Call (Unit {0})
unfolding print_message
log level m w = (if leb w.threshold level then print_message level m else pure tt) w

-- `log` at a level given by its name.
unfoldable pub log_named : Text → LogMessage → Call (Unit {0})
unfolding log index_of
log_named level m = do i ← or_raise (index_of logging_levels level) Exception.value_error; log i m

abbrev pub debug_level : ℕ
debug_level = 0

abbrev pub info_level : ℕ
info_level = 1

abbrev pub notice_level : ℕ
notice_level = 2

abbrev pub warn_level : ℕ
warn_level = 3

abbrev pub error_level : ℕ
error_level = 4

abbrev pub disabled_level : ℕ
disabled_level = 5

abbrev pub debug : Message → Call (Unit {0})
debug m = log debug_level (formatted m)

abbrev pub info : Message → Call (Unit {0})
info m = log info_level (formatted m)

abbrev pub notice : Message → Call (Unit {0})
notice m = log notice_level (formatted m)

abbrev pub warn : Message → Call (Unit {0})
warn m = log warn_level (formatted m)

abbrev pub error : LogMessage → Call (Unit {0})
error m = log error_level m

-- `_debug`
unfoldable pub debug_if : Bool → Message → Call (Unit {0})
unfolding log
debug_if quiet m = if quiet then debug m else notice m

-- `_info`
unfoldable pub info_if : Bool → Message → Call (Unit {0})
unfolding log
info_if quiet m = if quiet then info m else notice m

-- `fail` logs its message, and raises it if it is an exception, and a `PlanoError` of it if not.
unfoldable pub fail : {A : Type 0} → LogMessage → Call A
unfolding log
fail (formatted m) = error (formatted m) >> raise (Exception.plano_error m)
fail (raised e) = error (raised e) >> raise e

-- `repr(nvl(output, "stderr"))`
abbrev output_repr : OutputArg → Arg
output_repr no_output = quoted (str "stderr")
output_repr (path p) = quoted p
output_repr (opened_stream s) = stream s

abbrev set_output : Option Sink → World → World
set_output s w = record w { log_output = s }

-- `open(path, "w")`, which empties the file.
unfoldable pub open_file : Text → Call Sink
open_file p w =
    (if w.can_open p
        then modify (λ w. record w { events = w.events ++ opened p ∷ [] }) >> pure (file p)
        else raise (Exception.os_error (str "OSError")))
      w

-- The end of `enable_logging`: a path is opened.
use_output : OutputArg → Call (Unit {0})
unfolding open_file
use_output no_output = modify (set_output none)
use_output (opened_stream s) = modify (set_output (some s))
use_output (path p) = do s ← open_file p; modify (set_output (some s))

unfoldable pub enable_logging : Text → OutputArg → Call (Unit {0})
unfolding log use_output index_of open_file
enable_logging level output = do
  assert (contains logging_levels level) (message level [])
  info (
      message (str "Enabling logging (level={}, output={})")
        (quoted level ∷ output_repr output ∷ []))
  i ← or_raise (index_of logging_levels level) Exception.value_error
  modify (λ w. record w { threshold = i })
  use_output output

unfoldable pub disable_logging : Call (Unit {0})
unfolding log
disable_logging = do
  info (message (str "Disabling logging") [])
  modify (λ w. record w { threshold = disabled_level })

-- What a `logging_enabled` object remembers between `__enter__` and `__exit__`.
pub record Saved : Type 0 where
  pub prev_level : Text
  pub prev_output : Option Sink

abbrev saved_output : Option Sink → OutputArg
saved_output none = no_output
saved_output (some s) = opened_stream s

-- `disable_logging()` for the level "disabled", and `enable_logging(level, output)` for any other.
unfoldable pub switch_logging : Text → OutputArg → Call (Unit {0})
unfolding enable_logging disable_logging
switch_logging level output =
    if level == str "disabled" then disable_logging else enable_logging level output

-- `logging_enabled.__enter__`
unfoldable pub enter_logging : Text → OutputArg → Call Saved
unfolding switch_logging
enter_logging level output = do
  prev_level ← (λ w. or_raise (get_elem? logging_levels w.threshold) Exception.index_error w)
  prev_output ← gets (λ w. w.log_output)
  switch_logging level output
  pure (record { prev_level = prev_level; prev_output = prev_output })

-- `logging_enabled.__exit__`
unfoldable pub exit_logging : Saved → Call (Unit {0})
unfolding switch_logging
exit_logging saved = switch_logging saved.prev_level (saved_output saved.prev_output)

-- `with logging_enabled(level, output): body`
unfoldable pub with_logging : {A : Type 0} → Text → OutputArg → Call A → Call A
unfolding enter_logging exit_logging
with_logging level output body =
    with_manager (enter_logging level output) exit_logging (λ saved. body)

-- `with logging_disabled(): body`
unfoldable pub with_logging_disabled : {A : Type 0} → Call A → Call A
unfolding with_logging
with_logging_disabled body = with_logging (str "disabled") no_output body
