-- ===== src/Waiting/Deadlines.antt =====
-- `await_exists` and `await_port` of subrepos/plano/src/plano/main.py under the alarm of their timer. A
-- clock tick is 1/32 of a second, the check after `i` failed ones takes `cost i` ticks, and a sleep
-- takes as long as it is asked to. The alarm ends a check or a sleep that is going on.
use bsord.Base.{
  ℕ, zero, suc, ◌+◌, ◌-◌, ◌*◌, ◌≤◌, ◌<◌, ◌≡◌, refl, Bool, true, false, Option, none, some, [], ◌⊎◌,
  inl, inr, Text, arith, if◌then◌else◌, leb, ltb, Bool-cases, ap, ◌∙◌, sym,
}
use bsord.World.{Result, ok, err, Exception, message}
use mathlib.Core.Path.{subst}
use mathlib.Core.Option.{some-injective}
use bsord.Waiting.{await_check, next_period}
use bsord.Waiting.Periods.{IsFirst, at}
use bsord.Timers.Nesting.{timed, running, restored, due_after-positive}
use bsord.Timers.{Clock, Timer, Started, start_timer, stop_timer, set_timer, due_after}

-- The interval timer has expired at a time.
abbrev pub rings : Option ℕ → ℕ → Bool
rings none t = false
rings (some due) t = leb due t

abbrev pub due_time : Option ℕ → ℕ
due_time none = 0
due_time (some due) = due

module _ (succeeds : ℕ → Bool) (cost : ℕ → ℕ) (timeout_message : Text) where
  abbrev pub timed_out : Result (Unit {0})
  timed_out = err (Exception.plano_timeout (some timeout_message))

  -- The `while` loop from the check after `i` failed ones on: its result and when it ends, or
  -- `none` if the fuel runs out before.
  unfoldable pub await_loop : ℕ → Option ℕ → ℕ → ℕ → ℕ → Option (Result (Unit {0}) × ℕ)
  await_loop zero due i period now = none
  await_loop (suc fuel) due i period now =
      let checked = now + cost i in
      let slept = checked + period in
      let rest = await_loop fuel due (suc i) (next_period period) slept in
      if rings due checked
      then some (timed_out, due_time due)
      else if succeeds i
      then some (ok tt, checked)
      else if rings due slept
      then some (timed_out, due_time due)
      else rest

  abbrev if_passed : Result (Unit {0}) → Bool × Clock → Result (Unit {0}) × Clock
  if_passed r (true, c) = (r, c)
  if_passed r (false, c) = (err (Exception.assertion_error (message [] [])), c)

  -- The end of the timer's block.
  abbrev stop_after : Timer → Started → Clock → Result (Unit {0}) × ℕ → Result (Unit {0}) × Clock
  stop_after timer s c (r, t) = if_passed r (stop_timer timer s (record c { now = t }))

  abbrev stop_if_ended :
      Timer → Started → Clock → Option (Result (Unit {0}) × ℕ) → Option (Result (Unit {0}) × Clock)
  stop_if_ended timer s c none = none
  stop_if_ended timer s c (some ended) = some (stop_after timer s c ended)

  -- `await_exists` and `await_port`, for a timeout in seconds, or `None`.
  unfoldable pub await_timed : ℕ → Option ℕ → Clock → Option (Result (Unit {0}) × Clock)
  unfolding await_loop start_timer stop_timer
  await_timed fuel timeout c =
      let timer : Timer = record {
        timeout = elim timeout [ none ↦ none | some seconds ↦ some (32 * seconds) ];
        timeout_message = some timeout_message;
      } in
      let (s, c₁) = start_timer timer c in
      stop_if_ended timer s c₁ (await_loop fuel c₁.due 0 1 c₁.now)

  -- The loop has ended no later than the alarm, as `await_check` does when it has room for some
  -- number of checks, and not before a time.
  abbrev EndsBy : ℕ → ℕ → ℕ → ℕ → Option (Result (Unit {0}) × ℕ) → Type 0
  EndsBy due i period now o =
      (checks : ℕ) × (t : ℕ) × (o
        ≡ some ((await_check checks succeeds timeout_message i period).0, t))
      × (t ≤ due)
      × (now + cost i ≤ t ⊎ (t ≡ due))

  module _ (due : ℕ) where
    -- With this much fuel the loop ends from a period on.
    abbrev EndsFrom : ℕ → ℕ → Type 0
    EndsFrom period d =
        (fuel i now : ℕ)
        → now < due
        → due + d ≤ now + 32 * fuel
        → EndsBy due i period now (await_loop fuel (some due) i period now)

    -- One round of the loop, given that the rest of it ends.
    EndsBy-round :
        (fuel i period now : ℕ)
        → (now + cost i + period < due
            → EndsBy due
                (suc i)
                (next_period period)
                (now + cost i + period)
                (await_loop fuel (some due) (suc i) (next_period period) (now + cost i + period)))
        → EndsBy due i period now (await_loop (suc fuel) (some due) i period now)
    unfolding await_loop await_check
    EndsBy-round fuel i period now rest = elim (Bool-cases (leb due (now + cost i))) [
      | inl late ↦ (0, due, rw late, omega arith, inr refl)
      | inr early ↦ elim (Bool-cases (succeeds i)) [
        | inl succeeded ↦ (1, now + cost i, rw (early, succeeded), ground arith, inl (omega arith))
        | inr failed ↦ elim (Bool-cases (leb due (now + cost i + period))) [
          | inl late ↦ (1, due, rw (early, failed, late), omega arith, inr refl)
          | inr on_time ↦
              let (checks, t, e, h, k) = rest (ground arith) in
              (
                suc checks,
                t,
                rw (early, failed, on_time) e,
                h,
                elim k [ inl later ↦ inl (omega arith) | inr e ↦ inr e ],
              )
        ]
      ]
    ]

    EndsFrom-earlier :
        (period d : ℕ)
        → period ≤ 32
        → EndsFrom (next_period period) d
        → EndsFrom period (d + (32 - period))
    EndsFrom-earlier period d h later zero i now before room = absurd (omega arith)
    EndsFrom-earlier period d h later (suc fuel) i now before room =
        EndsBy-round fuel i period now (λ on_time. later fuel (suc i) _ on_time (omega arith))

    EndsFrom-last : EndsFrom 32 0
    EndsFrom-last zero i now before room = absurd (omega arith)
    EndsFrom-last (suc fuel) i now before room =
        EndsBy-round fuel i 32 now (λ on_time. EndsFrom-last fuel (suc i) _ on_time (omega arith))

    EndsFrom-first : EndsFrom 1 129
    EndsFrom-first = EndsFrom-earlier 1 98 (omega arith) (
        EndsFrom-earlier 2 68 (omega arith) (
          EndsFrom-earlier 4 40 (omega arith) (
            EndsFrom-earlier 8 16 (omega arith)
              (EndsFrom-earlier 16 0 (omega arith) EndsFrom-last))))

  -- What the timer makes of a loop that has ended after its start.
  stopped :
      (timeout t : ℕ) (c : Clock) (r : Result (Unit {0}))
      → c.now < t
      → let timer = timed timeout (some timeout_message) in
        let c₁ = running timeout (some timeout_message) c in
        stop_after timer (start_timer timer c).0 c₁ (r, t) ≡ (r, restored c (record c₁ { now = t }))
  unfolding start_timer stop_timer set_timer
  stopped timeout t c r later =
      let c₁ = running timeout (some timeout_message) c in
      let passed : ltb 0 (t - c.now) ≡ true = ground arith in
      let c₂ : Clock = record c₁ { now = t } in
      ap (λ (b : Bool). if_passed r (if b then (true, restored c c₂) else (false, c₂))) passed

  loop_ends :
      (seconds : ℕ) (c : Clock)
      → 0 < seconds
      → EndsBy
          (c.now + 32 * seconds)
          0
          1
          c.now
          (await_loop (seconds + 5) (due_after c.now (32 * seconds)) 0 1 c.now)
  loop_ends seconds c h =
      rw (due_after-positive c.now (32 * seconds) (omega arith))
        (EndsFrom-first (c.now + 32 * seconds) (seconds + 5) 0 c.now (omega arith) (omega arith))

  -- When the check after `n` more failed ones is done, from the check after `i` failed ones on.
  unfoldable pub reached : ℕ → ℕ → ℕ → ℕ → ℕ
  reached zero i period now = now + cost i
  reached (suc n) i period now = reached n (suc i) (next_period period) (now + cost i + period)

  -- The result of the wait and its end: the first check that succeeds ends it if it is done before the alarm.
  abbrev pub ended : ℕ → Option ℕ → ℕ → ℕ → ℕ → Result (Unit {0}) × ℕ
  ended due none i period now = (timed_out, due)
  ended due (some n) i period now =
      if ltb (reached n i period now) due then (ok tt, reached n i period now) else (timed_out, due)

  abbrev FirstFrom : ℕ → Option ℕ → Type 0
  FirstFrom i none = (j : ℕ) → succeeds (i + j) ≡ false
  FirstFrom i (some n) = ((j : ℕ) → j < n → succeeds (i + j) ≡ false) × (succeeds (i + n) ≡ true)

  FirstFrom-zero : (first : Option ℕ) → IsFirst succeeds first → FirstFrom 0 first
  FirstFrom-zero none h = λ j. at succeeds false (omega arith) (h j)
  FirstFrom-zero (some n) (fails, last) =
      (λ j k. at succeeds false (omega arith) (fails j k), at succeeds true (omega arith) last)

  reached_later : (n i period now : ℕ) → now + cost i ≤ reached n i period now
  unfolding reached
  reached_later zero i period now = omega arith
  reached_later (suc n) i period now =
      omega (arith, reached_later n (suc i) (next_period period) (now + cost i + period))

  -- A round whose check fails ends the wait by the alarm, or goes on to the next.
  failed_round :
      (fuel due i period now : ℕ) (x : Result (Unit {0}) × ℕ)
      → await_loop (suc fuel) (some due) i period now ≡ some x
      → succeeds i ≡ false
      → ((x ≡ (timed_out, due)) × (due ≤ now + cost i + period))
        ⊎ (await_loop fuel (some due) (suc i) (next_period period) (now + cost i + period) ≡ some x)
  unfolding await_loop
  failed_round fuel due i period now x e failed = elim (Bool-cases (leb due (now + cost i))) [
    | inl late ↦ inl (some-injective _ _ (sym e ∙ rw late refl), ground arith)
    | inr early ↦ elim (Bool-cases (leb due (now + cost i + period))) [
      | inl late ↦ inl (some-injective _ _ (sym e ∙ rw (early, failed, late) refl), ground arith)
      | inr on_time ↦ inr (sym (rw (early, failed, on_time) refl) ∙ e)
    ]
  ]

  later_fails :
      (i n : ℕ)
      → ((j : ℕ) → j < suc n → succeeds (i + j) ≡ false)
      → (j : ℕ) → j < n
      → succeeds (suc i + j) ≡ false
  later_fails i n h j k = at succeeds false (omega arith) (h (suc j) (omega arith))

  await_loop-ended :
      (fuel due : ℕ) (first : Option ℕ) (i period now : ℕ) (x : Result (Unit {0}) × ℕ)
      → await_loop fuel (some due) i period now ≡ some x
      → FirstFrom i first
      → x ≡ ended due first i period now
  unfolding await_loop reached
  await_loop-ended zero due first i period now x e h = cc
  await_loop-ended (suc fuel) due none i period now x e h =
      let failed = at succeeds false {k = i} (omega arith) (h 0) in
      elim (failed_round fuel due i period now x e failed) [
        | inl (timeout, _) ↦ timeout
        | inr rest ↦
            await_loop-ended fuel due none (suc i) (next_period period) (now + cost i + period) x
              rest (λ j. at succeeds false (omega arith) (h (suc j)))
      ]
  await_loop-ended (suc fuel) due (some zero) i period now x e (_, last) =
      let succeeded = at succeeds true {k = i} (omega arith) last in
      elim (Bool-cases (leb due (now + cost i))) [
        | inl late ↦
            let not_before : ltb (now + cost i) due ≡ false = ground arith in
            rw not_before (some-injective _ _ (sym e ∙ rw late refl))
        | inr early ↦
            let before : ltb (now + cost i) due ≡ true = ground arith in
            rw before (some-injective _ _ (sym e ∙ rw (early, succeeded) refl))
      ]
  await_loop-ended (suc fuel) due (some (suc n)) i period now x e (fails, last) =
      let failed = at succeeds false {k = i} (omega arith) (fails 0 (omega arith)) in
      let next = now + cost i + period in
      elim (failed_round fuel due i period now x e failed) [
        | inl (timeout, late) ↦
            let after = reached_later n (suc i) (next_period period) next in
            let not_before : ltb (reached n (suc i) (next_period period) next) due ≡ false =
              ground (arith, after) in
            rw not_before timeout
        | inr rest ↦
            await_loop-ended fuel due (some n) (suc i) (next_period period) next x rest
              (later_fails i n fails, at succeeds true (omega arith) last)
      ]

  -- A wait with a timeout of at least a second, which takes some time, ends after a number of rounds that
  -- is at most the timeout in seconds and five. It returns when the first check that succeeds is done, if
  -- this is before the timeout, which each failed check and the sleep after it bring closer;
  -- otherwise it ends by a `PlanoTimeout` at the timeout. The old handler of the alarm is there again.
  pub await_timed-ends :
      (seconds : ℕ) (c : Clock) (first : Option ℕ)
      → IsFirst succeeds first
      → 0 < seconds
      → c.now < (ended (c.now + 32 * seconds) first 0 1 c.now).1
      → let (r, t) = ended (c.now + 32 * seconds) first 0 1 c.now in
        (c' : Clock) × (await_timed (seconds + 5) (some seconds) c ≡ some (r, c'))
        × (c'.now ≡ t)
        × (c'.handler ≡ c.handler)
  unfolding await_timed start_timer set_timer
  await_timed-ends seconds c first is_first h later =
      let due = c.now + 32 * seconds in
      let (checks, t, e, within, since) = loop_ends seconds c h in
      let q = ended due first 0 1 c.now in
      let on_time = due_after-positive c.now (32 * seconds) (omega arith) in
      let exact =
        await_loop-ended (seconds + 5) due first 0 1 c.now _
          (subst
            (λ d.
              await_loop (seconds + 5) d 0 1 c.now
              ≡ some ((await_check checks succeeds timeout_message 0 1).0, t))
            on_time e)
          (FirstFrom-zero first is_first) in
      let c₁ = running (32 * seconds) (some timeout_message) c in
      let timer = timed (32 * seconds) (some timeout_message) in
      (
        restored c (record c₁ { now = q.1 }),
        ap (stop_if_ended timer (start_timer timer c).0 c₁) (e ∙ ap some exact)
            ∙ ap some (stopped (32 * seconds) q.1 c q.0 later),
        refl,
        refl,
      )
