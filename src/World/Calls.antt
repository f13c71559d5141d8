-- ===== src/World/Calls.antt =====
-- The state, and calls that may raise.
use bsord.Base.{
  ℕ, ◌≡◌, refl, arith, if◌then◌else◌, ap, ◌∙◌, Bool, true, false, Option, none, some, List, Text,
}
use bsord.Base.Dict.{Dict}
use bsord.World.Nodes.{Node}
use bsord.World.Exceptions.{Sink, Arg, Message, Exception}

pub data LogMessage : Type 0 where
  formatted : Message → LogMessage
  raised : Exception → LogMessage

-- What the process has done to its outputs, oldest first.
pub data Event : Type 0 where
  logged : Sink → ℕ → LogMessage → Event
  printed : Sink → Message → Event
  opened : Text → Event
  removed : Text → Event
  terminated : Text → Event

pub record World : Type 0 where
  pub threshold : ℕ
  pub log_output : Option Sink
  pub stdout : Sink
  pub stderr : Sink
  -- `file.isatty()`
  pub is_tty : Sink → Bool
  pub environ : Dict Text Text
  pub sys_path : List Text
  -- `os.path.expandvars(os.path.expanduser(path))` for an environment
  pub expansion : Dict Text Text → Text → Text
  -- `os.getcwd()`
  pub current_dir : Text
  -- The nodes of the file system by location, the components of an absolute path.
  pub files : Dict (List Text) Node
  -- Whether `open(path, "w")` succeeds for a path that output goes to. What is printed to such a file
  -- is kept in the events.
  pub can_open : Text → Bool
  -- The names of `_plano_command.running_commands`, the last one first.
  pub running_commands : List Text
  pub events : List Event

pub data Result (A : Type 0) : Type 0 where
  ok : A → Result A
  err : Exception → Result A

abbrev pub Call : Type 0 → Type 0
Call A = World → Result A × World

module _ {A : Type 0} where
  abbrev pub pure : A → Call A
  pure a w = (ok a, w)

  abbrev pub raise : Exception → Call A
  raise e w = (err e, w)

  abbrev pub gets : (World → A) → Call A
  gets f w = (ok (f w), w)

  abbrev pub or_raise : Option A → Exception → Call A
  or_raise none e = raise e
  or_raise (some a) e = pure a

abbrev pub modify : (World → World) → Call (Unit {0})
modify f w = (ok tt, f w)

-- What is done with the result of a call: the rest runs if it returned.
abbrev pub resume : {A B : Type 0} → (A → Call B) → Result A × World → Result B × World
resume f (ok a, w) = f a w
resume f (err e, w) = (err e, w)

infixl 5 ◌>>=◌ ◌>>◌
abbrev pub ◌>>=◌ : {A B : Type 0} → Call A → (A → Call B) → Call B
◌>>=◌ m f w = resume f (m w)

abbrev pub ◌>>◌ : {A B : Type 0} → Call A → Call B → Call B
m >> k = m >>= λ _. k

abbrev pub when : Bool → Call (Unit {0}) → Call (Unit {0})
when true m = m
when false m = pure tt

-- `assert test, message`
abbrev pub assert : Bool → Message → Call (Unit {0})
assert true m = pure tt
assert false m = raise (Exception.assertion_error m)

abbrev pub after_leave : {A : Type 0} → Result A → Result (Unit {0}) × World → Result A × World
after_leave result (left, w) = elim left [ err e ↦ (err e, w) | ok _ ↦ (result, w) ]

abbrev pub after_enter :
    {C A : Type 0} → (C → Call (Unit {0})) → (C → Call A) → Result C × World → Result A × World
after_enter leave body (entered, w₁) = elim entered [
  | err e ↦ (err e, w₁)
  | ok c ↦ let (result, w₂) = body c w₁ in after_leave result (leave c w₂)
]

-- `with enter() as c: body`, for a manager whose `__exit__` suppresses nothing.
abbrev pub with_manager : {C A : Type 0} → Call C → (C → Call (Unit {0})) → (C → Call A) → Call A
with_manager enter leave body w = after_enter leave body (enter w)

abbrev pub message : Text → List Arg → Message
message t args = record { template = t; args = args }

-- A call whose first part returns goes on with the rest.
pub bind_ok :
    {A B : Type 0} (m : Call A) (f : A → Call B) (w : World) {a : A} {w' : World}
    → m w ≡ (ok a, w')
    → (m >>= f) w ≡ f a w'
bind_ok m f w e = ap (resume f) e

-- A call that never raises.
pub record Returns (m : Call (Unit {0})) : Type 0 where
  pub returns : (w : World) → (m w).0 ≡ ok tt

pub then_ok :
    {A : Type 0} {m : Call (Unit {0})} (k : Call A)
    → Returns m
    → (w : World) → (m >> k) w ≡ k (m w).1
then_ok {m} k h w = bind_ok m (λ _. k) w (ground (arith, h.returns w))

pub pure-Returns : Returns (pure tt)
pure-Returns = record { returns = λ w. refl }

pub then-Returns : {m k : Call (Unit {0})} → Returns m → Returns k → Returns (m >> k)
then-Returns {m} hm hk = record { returns = λ w. ground (arith, hm.returns w, hk.returns (m w).1) }

pub if-Returns :
    (b : Bool) {m k : Call (Unit {0})} → Returns m → Returns k → Returns (if b then m else k)
if-Returns true hm hk = hm
if-Returns false hm hk = hk

-- A block whose manager raises nothing has the result of its body.
pub with_manager_ok :
    {C A : Type 0} (enter : Call C) (leave : C → Call (Unit {0})) (body : C → Call A) (w : World)
    {c : C} {w₁ w₃ : World}
    → enter w ≡ (ok c, w₁)
    → leave c (body c w₁).1 ≡ (ok tt, w₃)
    → with_manager enter leave body w ≡ ((body c w₁).0, w₃)
with_manager_ok {A} enter leave body w {c} {w₁} e l =
    ap (λ (p : Result _ × World). after_enter leave body p) e ∙ ap (after_leave (body c w₁).0) l
