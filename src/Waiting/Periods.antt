-- ===== src/Waiting/Periods.antt =====
-- How long the loops that wait go on.
use bsord.Base.{
  ℕ, zero, suc, ◌+◌, ◌<◌, ◌≤◌, min, ◌≡◌, refl, Bool, true, false, Option, none, some, List, [], ◌∷◌,
  Text, arith, if◌then◌else◌, ltb, Bool-cases, inl, inr,
}
use mathlib.Core.Path.{subst}
use bsord.World.{Result, ok, err, Exception}
use bsord.Waiting.{await, await_check, next_period}

-- `n` periods, each twice the one before it but 32 at most.
abbrev pub periods : ℕ → ℕ → List ℕ
periods zero period = []
periods (suc n) period = period ∷ periods n (next_period period)

pub at : (succeeds : ℕ → Bool) (b : Bool) {j k : ℕ} → j ≡ k → succeeds j ≡ b → succeeds k ≡ b
at succeeds b e = subst (λ k. succeeds k ≡ b) e

later :
    (succeeds : ℕ → Bool) (i n : ℕ)
    → ((j : ℕ) → j < suc n → succeeds (i + j) ≡ false)
    → (succeeds i ≡ false) × ((j : ℕ) → j < n → succeeds (suc i + j) ≡ false)
later succeeds i n fails = (
  at succeeds false (omega arith) (fails 0 (omega arith)),
  λ j h. at succeeds false (omega arith) (fails (suc j) (omega arith)),
)

await_check-first :
    (checks n i period : ℕ) (succeeds : ℕ → Bool) (m : Text)
    → ((j : ℕ) → j < n → succeeds (i + j) ≡ false)
    → succeeds (i + n) ≡ true
    → n < checks
    → await_check checks succeeds m i period ≡ (ok tt, periods n period)
unfolding await_check
await_check-first zero n i period succeeds m fails last room = absurd (omega arith)
await_check-first (suc checks) zero i period succeeds m fails last room =
    rw (at succeeds true {k = i} (omega arith) last) refl
await_check-first (suc checks) (suc n) i period succeeds m fails last room =
    let (failed, fails') = later succeeds i n fails in
    let last' = at succeeds true {k = suc i + n} (omega arith) last in
    rw
      (
        failed,
        await_check-first checks n (suc i) (next_period period) succeeds m fails' last'
            (omega arith),
      )
      refl

await_check-timeout :
    (checks i period : ℕ) (succeeds : ℕ → Bool) (m : Text)
    → ((j : ℕ) → j < checks → succeeds (i + j) ≡ false)
    → await_check checks succeeds m i period
      ≡ (err (Exception.plano_timeout (some m)), periods checks period)
unfolding await_check
await_check-timeout zero i period succeeds m fails = refl
await_check-timeout (suc checks) i period succeeds m fails =
    let (failed, fails') = later succeeds i checks fails in
    rw (failed, await_check-timeout checks (suc i) (next_period period) succeeds m fails') refl

lt_of_ltb : (a b : ℕ) → ltb a b ≡ true → a < b
lt_of_ltb a b h = ground arith

le_of_ltb : (a b : ℕ) → ltb a b ≡ false → b ≤ a
le_of_ltb a b h = ground arith

-- What `await` does if the check after `n` failed ones succeeds.
await-reached :
    (checks n : ℕ) (succeeds : ℕ → Bool) (m : Text)
    → ((j : ℕ) → j < min n checks → succeeds j ≡ false)
    → succeeds n ≡ true
    → await checks succeeds m ≡ (
        if ltb n checks
        then (ok tt, periods n 1)
        else (err (Exception.plano_timeout (some m)), periods checks 1))
unfolding await
await-reached checks n succeeds m fails last = elim (Bool-cases (ltb n checks)) [
  | inl room ↦
      let within = lt_of_ltb n checks room in
      rw
        (
          room,
          await_check-first checks n 0 1 succeeds m
              (λ j h. at succeeds false (omega arith) (fails j (omega arith)))
              (at succeeds true (omega arith) last) within,
        )
        refl
  | inr late ↦
      let beyond = le_of_ltb n checks late in
      rw
        (
          late,
          await_check-timeout checks 0 1 succeeds m
              (λ j h. at succeeds false (omega arith) (fails j (omega arith))),
        )
        refl
]

-- The number of checks that fail before the first that succeeds, or `none` if none ever does.
abbrev pub IsFirst : (ℕ → Bool) → Option ℕ → Type 0
IsFirst succeeds none = (j : ℕ) → succeeds j ≡ false
IsFirst succeeds (some n) = ((j : ℕ) → j < n → succeeds j ≡ false) × (succeeds n ≡ true)

-- How a wait ends, and its sleeps, if the alarm leaves room for a number of checks.
abbrev pub end_and_sleeps : ℕ → Text → Option ℕ → Result (Unit {0}) × List ℕ
end_and_sleeps checks m none = (err (Exception.plano_timeout (some m)), periods checks 1)
end_and_sleeps checks m (some n) =
    if ltb n checks
    then (ok tt, periods n 1)
    else (err (Exception.plano_timeout (some m)), periods checks 1)

-- If the alarm leaves room for it, the first check that succeeds ends the wait, after one sleep for
-- each check that failed before it; if every check before the alarm fails, whether or not one would
-- succeed later, the wait ends by a `PlanoTimeout` with the message. The sleeps are 1/32 of a second, doubled
-- each time up to a second.
pub await-ends :
    (checks : ℕ) (first : Option ℕ) (succeeds : ℕ → Bool) (m : Text)
    → IsFirst succeeds first
    → await checks succeeds m ≡ end_and_sleeps checks m first
unfolding await
await-ends checks none succeeds m fails =
    await_check-timeout checks 0 1 succeeds m (λ j h. at succeeds false (omega arith) (fails j))
await-ends checks (some n) succeeds m (fails, last) =
    await-reached checks n succeeds m (λ j h. fails j (omega arith)) last
