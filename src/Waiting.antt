-- ===== src/Waiting.antt =====
-- The port operations of subrepos/plano/src/plano/main.py and its loops that wait for a port to open
-- or a path to exist. What `connect_ex` and `exists` find is a parameter, of the port or of the
-- number of checks made so far. Seconds are counted in units of 1/32.
pub mod Deadlines
pub mod Periods
pub mod RandomPorts
use bsord.Base.{
  ℕ, zero, suc, ◌*◌, min, Bool, Option, none, some, List, [], ◌∷◌, Text, str, if◌then◌else◌,
}
use bsord.Base.Int.{pos}
use bsord.World.{
  Call, Result, ok, err, Exception, Message, message, Arg, number, quoted, pure, raise,
}

abbrev pub number_arg : ℕ → Arg
number_arg n = number (pos n)

-- `check_port`, for a port that can be connected to or not.
unfoldable pub check_port : (ℕ → Bool) → ℕ → Text → Result (Unit {0})
check_port connects port host =
    if connects port
    then ok tt
    else err (
        Exception.plano_error
          (message (str "Port {} (host {}) is not reachable") (number_arg port ∷ quoted host ∷ [])))

-- The loop of `get_random_port` over the ports that were drawn.
unfoldable pub first_unreachable : (ℕ → Bool) → List ℕ → Result ℕ
unfolding check_port
first_unreachable connects [] =
    err (Exception.plano_error (message (str "Random ports unavailable") []))
first_unreachable connects (port ∷ ports) = elim (check_port connects port (str "localhost")) [
  | ok reachable ↦ first_unreachable connects ports
  | err e ↦ ok port
]

-- `get_random_port`, which draws three ports.
unfoldable pub get_random_port : (ℕ → Bool) → (ℕ → ℕ) → Result ℕ
unfolding first_unreachable
get_random_port connects draw = first_unreachable connects (draw 0 ∷ draw 1 ∷ draw 2 ∷ [])

-- `period = min(1, period * 2)`
abbrev pub next_period : ℕ → ℕ
next_period period = min 32 (period * 2)

-- The loop of `await_port` and `await_exists`: its result, and the periods that it has gone to sleep for. The
-- alarm of the timer comes after the given number of checks. `succeeds i` says whether the check
-- after `i` failed ones succeeds.
unfoldable pub await_check : ℕ → (ℕ → Bool) → Text → ℕ → ℕ → Result (Unit {0}) × List ℕ
await_check zero succeeds timeout_message i period =
    (err (Exception.plano_timeout (some timeout_message)), [])
await_check (suc checks) succeeds timeout_message i period =
    let (r, sleeps) = await_check checks succeeds timeout_message (suc i) (next_period period) in
    if succeeds i then (ok tt, []) else (r, period ∷ sleeps)

-- `await_port` and `await_exists` from the first check on, with a period of 0.03125 seconds.
unfoldable pub await : ℕ → (ℕ → Bool) → Text → Result (Unit {0}) × List ℕ
unfolding await_check
await checks succeeds timeout_message = await_check checks succeeds timeout_message 0 1
