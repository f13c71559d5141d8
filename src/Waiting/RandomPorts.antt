-- ===== src/Waiting/RandomPorts.antt =====
-- What `get_random_port` returns.
use bsord.Base.{ℕ, ◌≡◌, refl, Bool, List, [], ◌∷◌, arith, str, filter, not}
use bsord.World.{Result, ok, err, Exception, message}
use bsord.Waiting.{get_random_port, first_unreachable, check_port}

abbrev first_or_error : List ℕ → Result ℕ
first_or_error [] = err (Exception.plano_error (message (str "Random ports unavailable") []))
first_or_error (port ∷ ports) = ok port

first_unreachable_lem :
    (connects : ℕ → Bool) (ports : List ℕ)
    → first_unreachable connects ports ≡ first_or_error (filter (λ port. not (connects port)) ports)
unfolding first_unreachable check_port
first_unreachable_lem connects [] = refl
first_unreachable_lem connects (port ∷ ports) = ground (arith, first_unreachable_lem connects ports)

-- The random port is the first of the three drawn that nothing listens on; if something listens on
-- each of them, the call raises a `PlanoError`.
pub get_random_port-unreachable :
    (connects : ℕ → Bool) (draw : ℕ → ℕ)
    → get_random_port connects draw
      ≡ first_or_error (filter (λ port. not (connects port)) (draw 0 ∷ draw 1 ∷ draw 2 ∷ []))
unfolding get_random_port
get_random_port-unreachable connects draw =
    first_unreachable_lem connects (draw 0 ∷ draw 1 ∷ draw 2 ∷ [])
