-- ===== src/Logging/Entries.antt =====
-- What the log functions of subrepos/plano/src/plano/main.py write.
use mathlib.Core.List.{append-nil, append_assoc}
use bsord.Base.{ℕ, ◌≡◌, ap, ◌∙◌, inl, inr, List, [], ◌∷◌, ◌++◌, map, filter, leb}
use bsord.Base.{Bool-cases}
use bsord.World.{World, Call, ok, pure, LogMessage, Event, logged, ◌>>=◌, ◌>>◌}
use bsord.Logging.{log, log_sink}

-- Calls of `log`, one after another.
pub log_all : List (ℕ × LogMessage) → Call (Unit {0})
log_all [] = pure tt
log_all ((level, m) ∷ calls) = log level m >> log_all calls

abbrev pub entry : World → ℕ × LogMessage → Event
entry w (level, m) = logged (log_sink w) level m

-- Of any sequence of log calls, exactly those whose level is at or above the threshold write an
-- entry, in the order of the calls and to the current output, and nothing else changes.
pub log_all-filter :
    (calls : List (ℕ × LogMessage)) (w : World)
    → log_all calls w ≡ (
      ok tt,
      record w {
        events = w.events ++ map (entry w) (filter (λ call. leb w.threshold call.0) calls);
      },
    )
unfolding log_all log
log_all-filter [] w = rw append-nil
log_all-filter ((level, m) ∷ calls) w = elim (Bool-cases (leb w.threshold level)) [
  | inl loud ↦
      rw (loud, ◌>>=◌, log)
        (log_all-filter calls (record w { events = w.events ++ entry w (level, m) ∷ [] })
          ∙ ap (λ es. (ok tt, record w { events = es }))
              (append_assoc w.events (entry w (level, m) ∷ []) _))
  | inr still ↦ rw (still, ◌>>=◌, log) (log_all-filter calls w)
]
