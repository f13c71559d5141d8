-- ===== src/Timers.antt =====
-- `Timer` of subrepos/plano/src/plano/main.py, with the clock, the SIGALRM handler and the interval
-- timer of the process that it uses. Times are whole ticks.
pub mod Nesting
use bsord.Base.{
  ℕ, zero, suc, ◌+◌, ◌-◌, Bool, true, false, Option, none, some, Text, ltb, if◌then◌else◌,
}
use bsord.World.{Exception}

-- The handler of SIGALRM: the one of a `Timer` raises `PlanoTimeout` with its message.
pub data Handler : Type 0 where
  default_handler : Handler
  raise_timeout : Option Text → Handler

pub record Clock : Type 0 where
  pub now : ℕ
  pub handler : Handler
  -- When the interval timer expires, if it is set.
  pub due : Option ℕ

-- What the timer has left, 0 for a timer that is not set.
abbrev pub time_left : Clock → ℕ
time_left c = elim c.due [ none ↦ 0 | some t ↦ t - c.now ]

abbrev pub due_after : ℕ → ℕ → Option ℕ
due_after now zero = none
due_after now (suc n) = some (now + suc n)

-- `signal.setitimer(ITIMER_REAL, timeout)`, which gives what the timer had left.
unfoldable pub set_timer : ℕ → Clock → ℕ × Clock
set_timer timeout c = (time_left c, record c { due = due_after c.now timeout })

-- What a `Timer` remembers of its start.
pub record Started : Type 0 where
  pub start_time : ℕ
  pub prev_handler : Handler
  pub prev_timeout : ℕ
  pub prev_timer_suspend_time : ℕ

pub record Timer : Type 0 where
  pub timeout : Option ℕ
  pub timeout_message : Option Text

-- `Timer.start`
unfoldable pub start_timer : Timer → Clock → Started × Clock
unfolding set_timer
start_timer timer c = elim timer.timeout [
  | none ↦ (
    record {
      start_time = c.now;
      prev_handler = c.handler;
      prev_timeout = 0;
      prev_timer_suspend_time = c.now;
    },
    c,
  )
  | some timeout ↦
      let (left, c₁) =
        set_timer timeout (record c { handler = raise_timeout timer.timeout_message }) in
      (
        record {
          start_time = c.now;
          prev_handler = c.handler;
          prev_timeout = left;
          prev_timer_suspend_time = c₁.now;
        },
        c₁,
      )
]

-- `Timer.stop`, with `false` for its assertion that some time has passed.
unfoldable pub stop_timer : Timer → Started → Clock → Bool × Clock
unfolding set_timer
stop_timer timer s c = elim timer.timeout [
  | none ↦ (true, c)
  | some timeout ↦
      if ltb 0 (c.now - s.prev_timer_suspend_time)
      then (true, (set_timer s.prev_timeout (record c { handler = s.prev_handler })).1)
      else (false, c)
]

-- `timer.elapsed_time`, with `none` for a timer that has not been started.
unfoldable pub elapsed_time : Option ℕ → Option ℕ → ℕ → Option ℕ
elapsed_time none stop_time now = none
elapsed_time (some start_time) none now = some (now - start_time)
elapsed_time (some start_time) (some stop_time) now = some (stop_time - start_time)

-- `with timer: body`, where the body makes one clock of another.
unfoldable pub with_timer : Timer → (Clock → Clock) → Clock → Bool × Clock
unfolding start_timer stop_timer
with_timer timer body c = let (s, c₁) = start_timer timer c in stop_timer timer s (body c₁)
