-- ===== src/Timers/Nesting.antt =====
-- A `Timer` block inside of another one.
use bsord.Base.{
  Text, ap, ℕ, suc, zero, ◌+◌, ◌-◌, ◌<◌, ◌≡◌, refl, arith, Option, none, some, true, false, ltb,
  if◌then◌else◌,
}
use bsord.Timers.{
  Clock, Timer, raise_timeout, with_timer, start_timer, stop_timer, set_timer, due_after, time_left,
}

abbrev pub timed : ℕ → Option Text → Timer
timed timeout m = record { timeout = some timeout; timeout_message = m }

-- The clock in which the body of a block with a timeout runs.
abbrev pub running : ℕ → Option Text → Clock → Clock
running timeout m c = record c { handler = raise_timeout m; due = due_after c.now timeout }

-- A clock set back to a handler and to the time that a timer had left.
abbrev pub restored : Clock → Clock → Clock
restored c c₁ = record c₁ { handler = c.handler; due = due_after c₁.now (time_left c) }

with_timer-restored :
    (timeout : ℕ) (m : Option Text) (body : Clock → Clock) (c : Clock)
    → c.now < (body (running timeout m c)).now
    → with_timer (timed timeout m) body c ≡ (true, restored c (body (running timeout m c)))
unfolding with_timer start_timer stop_timer set_timer
with_timer-restored timeout m body c later =
    let c₁ = body (running timeout m c) in
    let passed : ltb 0 (c₁.now - c.now) ≡ true = ground arith in
    ap (λ b. if b then (true, restored c c₁) else (false, c₁)) passed

pub due_after-positive : (now n : ℕ) → 0 < n → due_after now n ≡ some (now + n)
due_after-positive now zero h = absurd (omega arith)
due_after-positive now (suc n) h = refl

restored-none : (c c₁ : Clock) → c.due ≡ none → (restored c c₁).due ≡ none
restored-none c c₁ e = rw e refl

restored-some :
    (c c₁ : Clock) (t : ℕ)
    → c.due ≡ some t
    → c.now < t
    → (restored c c₁).due ≡ some (c₁.now + (t - c.now))
restored-some c c₁ t e h = rw e (due_after-positive c₁.now (t - c.now) (omega arith))

-- A block with a timeout whose body takes some time restores the handler of the alarm; a timer that
-- was set before, with some time left, is set to that time from the end of the block on, so that
-- it expires later by as long as the body took; and if none was set, none is set.
pub with_timer-restores :
    (timeout : ℕ) (m : Option Text) (body : Clock → Clock) (c : Clock)
    → c.now < (body (running timeout m c)).now
    → let (passed, c') = with_timer (timed timeout m) body c in
      (passed ≡ true)
      × (c'.handler ≡ c.handler)
      × (c'.now ≡ (body (running timeout m c)).now)
      × (c.due ≡ none → c'.due ≡ none)
      × ((t : ℕ) → c.due ≡ some t → c.now < t → c'.due ≡ some (c'.now + (t - c.now)))
with_timer-restores timeout m body c later =
    let c₁ = body (running timeout m c) in
    rw (with_timer-restored timeout m body c later)
      (refl, refl, refl, restored-none c c₁, restored-some c c₁)
