-- ===== src/Processes/Effects.antt =====
-- What a call does to its outputs, its log entries left out.
use bsord.Base.{
  ℕ, ◌≡◌, ◌∙◌, refl, sym, ap, Bool, true, false, List, [], ◌∷◌, ◌++◌, arith, if◌then◌else◌,
}
use mathlib.Core.List.{append-nil, append_assoc}
use bsord.World.{
  World, Call, Result, ok, err, Exception, Event, logged, printed, opened, removed, terminated,
  bind_ok, LogMessage, formatted, Sink, pure, raise, ◌>>=◌, ◌>>◌, Message,
}
use bsord.Logging.{log, print_message, log_sink, info_if}

-- All but the log entries.
abbrev pub effects : List Event → List Event
effects [] = []
effects (logged s l m ∷ events) = effects events
effects (event ∷ events) = event ∷ effects events

pub effects-append : (xs ys : List Event) → effects (xs ++ ys) ≡ effects xs ++ effects ys
effects-append [] ys = refl
effects-append (logged s l m ∷ xs) ys = effects-append xs ys
effects-append (printed s m ∷ xs) ys = ap (λ es. printed s m ∷ es) (effects-append xs ys)
effects-append (opened p ∷ xs) ys = ap (λ es. opened p ∷ es) (effects-append xs ys)
effects-append (removed p ∷ xs) ys = ap (λ es. removed p ∷ es) (effects-append xs ys)
effects-append (terminated p ∷ xs) ys = ap (λ es. terminated p ∷ es) (effects-append xs ys)

-- A call that has a result and writes the effects when the standard error is `s`, which it keeps.
pub record Writes {A : Type 0} (s : Sink) (m : Call A) (r : Result A) (es : List Event)
    : Type 0 where
  pub writes :
      (w : World)
      → w.stderr ≡ s
      → ((m w).0 ≡ r) × ((m w).1.stderr ≡ s) × (effects (m w).1.events ≡ effects w.events ++ es)

pair_eq : {A : Type 0} (p : Result A × World) (a : A) → p.0 ≡ ok a → p ≡ (ok a, p.1)
pair_eq p a e = ground arith

pub bind-Writes :
    {A B : Type 0} {s : Sink} {m : Call A} {a : A} {r : Result B} {es fs : List Event}
    (k : A → Call B)
    → Writes s m (ok a) es
    → Writes s (k a) r fs
    → Writes s (m >>= k) r (es ++ fs)
bind-Writes {s} {m} {a} {r} {es} {fs} k hm hk = record {
  writes = λ w e.
      let (me, ms, mes) = hm.writes w e in
      let (ke, ks, kes) = hk.writes (m w).1 ms in
      let result = pair_eq (m w) a me in
      let after = bind_ok m k w result in
      (
        ap (λ (p : Result _ × World). p.0) after ∙ ke,
        ap (λ (p : Result _ × World). p.1.stderr) after ∙ ks,
        ap (λ (p : Result _ × World). effects p.1.events) after
            ∙ (kes ∙ (ap (λ xs. xs ++ fs) mes ∙ append_assoc (effects w.events) es fs)),
      );
}

pub then-Writes :
    {A : Type 0} {s : Sink} {m : Call (Unit {0})} {k : Call A} {r : Result A} {es fs : List Event}
    → Writes s m (ok tt) es
    → Writes s k r fs
    → Writes s (m >> k) r (es ++ fs)
then-Writes {k} hm hk = bind-Writes (λ u. k) hm hk

pub log-Writes : (s : Sink) (level : ℕ) (m : LogMessage) → Writes s (log level m) (ok tt) []
unfolding log print_message
log-Writes s level m = record {
  writes = λ w e. ground (
    arith,
    effects-append w.events (logged (log_sink w) level m ∷ []),
    append-nil (effects w.events),
  );
}

pub pure-Writes : {A : Type 0} {s : Sink} (a : A) → Writes s (pure a) (ok a) []
pure-Writes a = record { writes = λ w e. (refl, e, sym (append-nil (effects w.events))) }

pub raise-Writes : {A : Type 0} {s : Sink} (x : Exception) → Writes {A = A} s (raise x) (err x) []
raise-Writes x = record { writes = λ w e. (refl, e, sym (append-nil (effects w.events))) }

pub info_if-Writes : (s : Sink) (quiet : Bool) (m : Message) → Writes s (info_if quiet m) (ok tt) []
unfolding info_if
info_if-Writes s true m = log-Writes s 1 (formatted m)
info_if-Writes s false m = log-Writes s 2 (formatted m)

pub choice-Writes :
    {s : Sink} (b : Bool) {m k : Call (Unit {0})}
    → Writes s m (ok tt) []
    → Writes s k (ok tt) []
    → Writes s (if b then m else k) (ok tt) []
choice-Writes true hm hk = hm
choice-Writes false hm hk = hk
