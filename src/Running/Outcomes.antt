-- ===== src/Running/Outcomes.antt =====
-- Calls whose result is known whatever the state, and the parts of `call` among them.
use mathlib.Core.Path.{subst}
use mathlib.Core.Option.{none-ne-some, some-injective}
use bsord.Base.{
  ℕ, ◌≡◌, refl, ap, sym, arith, Bool, true, false, Option, none, some, List, [], Text,
  if◌then◌else◌, inl, inr, eqb, Bool-cases,
}
use bsord.Base.Int.{ℤ, pos, negsuc}
use bsord.World.{
  World, Call, Result, ok, err, resume, Exception, Message, message, pure, raise, gets, or_raise,
  ◌>>=◌, LogMessage,
}
use bsord.Logging.{log, print_message, info_if, debug}
use bsord.FileSystem.{stat}
use bsord.FileSystem.Writing.{contents}
use bsord.Files.{exists}
use bsord.Processes.{PlanoProcess, wait, debug_exit, settle_stash, is_positive}
use bsord.Running.{
  ProcessCommand, command_text, command_args, System, format_command, wait_for, program,
  command_list,
}

-- A call whose result satisfies a predicate, whatever the state.
pub record Ends {A : Type 0} (m : Call A) (P : Result A → Type 0) : Type 0 where
  pub ends : (w : World) → P (m w).0

abbrev pub IsOk : {A : Type 0} → Result A → Type 0
IsOk {A} r = (a : A) × (r ≡ ok a)

abbrev value_of : {A : Type 0} → A → Result A → A
value_of a (ok b) = b
value_of a (err e) = a

module _ {A B : Type 0} where
  resume-ok :
      (f : A → Call B) (P : Result B → Type 0) (p : Result A × World)
      → ((a : A) → Ends (f a) P)
      → IsOk p.0
      → P (resume f p).0
  resume-ok f P (ok a, w) h e = (h a).ends w
  resume-ok f P (err x, w) h (a, e) = absurd cc

  -- After a call that returns, the rest decides.
  pub bind-Ends :
      {m : Call A} (f : A → Call B) (P : Result B → Type 0)
      → Ends m IsOk
      → ((a : A) → Ends (f a) P)
      → Ends (m >>= f) P
  bind-Ends {m} f P hm hf = record { ends = λ w. resume-ok f P (m w) hf (hm.ends w) }

  resume-exact :
      (f : A → Call B) (P : Result B → Type 0) (p : Result A × World) (a : A)
      → Ends (f a) P
      → p.0 ≡ ok a
      → P (resume f p).0
  resume-exact f P (ok a, w) b h e = subst (λ c. P (f c w).0) (sym (ap (value_of b) e)) (h.ends w)
  resume-exact f P (err x, w) b h e = absurd cc

  resume-err :
      (f : A → Call B) (p : Result A × World) (x : Exception) → p.0 ≡ err x → (resume f p).0 ≡ err x
  resume-err f (ok a, w) x e = cc
  resume-err f (err y, w) x e = cc

module _ {A B : Type 0} where
  pub bind-exact :
      {m : Call A} (f : A → Call B) (P : Result B → Type 0) (a : A)
      → Ends m (λ r. r ≡ ok a)
      → Ends (f a) P
      → Ends (m >>= f) P
  bind-exact {m} f P a hm hf = record { ends = λ w. resume-exact f P (m w) a hf (hm.ends w) }

  pub bind-err :
      {m : Call A} (f : A → Call B) (x : Exception)
      → Ends m (λ r. r ≡ err x)
      → Ends (m >>= f) (λ r. r ≡ err x)
  bind-err {m} f x hm = record { ends = λ w. resume-err f (m w) x (hm.ends w) }

log-Ends : (level : ℕ) (m : LogMessage) → Ends (log level m) IsOk
unfolding log print_message
log-Ends level m = record { ends = λ w. (tt, ground arith) }

pub info_if-Ends : (quiet : Bool) (m : Message) → Ends (info_if quiet m) IsOk
unfolding info_if
info_if-Ends true m = log-Ends _ _
info_if-Ends false m = log-Ends _ _

pub debug-Ends : (m : Message) → Ends (debug m) IsOk
debug-Ends m = log-Ends _ _

if-Ends :
    {A : Type 0} (P : Result A → Type 0) (b : Bool) {m k : Call A}
    → Ends m P
    → Ends k P
    → Ends (if b then m else k) P
if-Ends P true hm hk = hm
if-Ends P false hm hk = hk

debug_exit-Ends : (proc : PlanoProcess) (code : ℤ) → Ends (debug_exit proc code) IsOk
unfolding debug_exit
debug_exit-Ends proc (pos n) = if-Ends IsOk (eqb n 0) (debug-Ends _) (debug-Ends _)
debug_exit-Ends proc (negsuc n) = debug-Ends _

or_raise-Ends :
    {A : Type 0} (o : Option A) (a : A) (x : Exception)
    → o ≡ some a
    → Ends (or_raise o x) (λ r. r ≡ ok a)
or_raise-Ends none a x e = absurd (none-ne-some a e)
or_raise-Ends (some b) a x e = record { ends = λ w. ap ok (some-injective b a e) }

gets-Ends : {A : Type 0} (f : World → A) → Ends (gets f) IsOk
gets-Ends f = record { ends = λ w. (f w, refl) }

-- What a `wait` that checks returns or raises.
abbrev pub checked : PlanoProcess → ℤ → Result ℤ
checked proc code =
    if is_positive code
    then err (Exception.plano_process_error code (message proc.command []))
    else ok code

check_exit-Ends :
    (proc : PlanoProcess) (code : ℤ)
    → Ends
        (if is_positive code
          then raise (Exception.plano_process_error code (message proc.command []))
          else pure code)
        (λ r. r ≡ checked proc code)
check_exit-Ends proc (pos n) = elim (Bool-cases (eqb n 0)) [
  | inl e ↦ record { ends = λ w. rw e refl }
  | inr e ↦ record { ends = λ w. rw e refl }
]
check_exit-Ends proc (negsuc n) = record { ends = λ w. refl }

pub pure-Ends : {A : Type 0} (a : A) → Ends (pure a) IsOk
pure-Ends a = record { ends = λ w. (a, refl) }

shell_program-Ends :
    (sys : System) (command : ProcessCommand) → Ends (program sys true command) IsOk
shell_program-Ends sys (command_text text) = pure-Ends _
shell_program-Ends sys (command_args args) = pure-Ends _

module _ (sys : System) (command : ProcessCommand) (args : List Text)
    (split : command_list sys command ≡ some args) where
  pub format_command-Ends : Ends (format_command sys command) IsOk
  unfolding format_command
  format_command-Ends =
      bind-exact (λ args. gets _) IsOk args (or_raise-Ends _ args _ split) (gets-Ends _)

  pub program-Ends : (shell : Bool) → Ends (program sys shell command) IsOk
  program-Ends true = shell_program-Ends sys command
  program-Ends false =
      bind-exact (λ args. gets _) IsOk args (or_raise-Ends _ args _ split) (gets-Ends _)

module _ (sys : System) (proc : PlanoProcess) (code : ℤ) (clean : proc.stash_file ≡ none)
    (ended : sys.outcome proc ≡ some code) where
  settle_stash-Ends :
      (there : Text → Bool) (text_at : Text → Text)
      → Ends (settle_stash there text_at proc.stash_file code) IsOk
  unfolding settle_stash
  settle_stash-Ends there text_at =
      subst (λ o. Ends (settle_stash there text_at o code) IsOk) (sym clean) (pure-Ends tt)

  wait-Ends :
      (there : Text → Bool) (text_at : Text → Text)
      → Ends (wait there text_at (sys.outcome proc) proc true true) (λ r. r ≡ checked proc code)
  unfolding wait
  wait-Ends there text_at = bind-Ends _ _ (info_if-Ends true _) (λ _.
      bind-exact _ _ code (or_raise-Ends _ code _ ended) (
        bind-Ends _ _ (debug_exit-Ends proc code)
          (λ _. bind-Ends _ _ (settle_stash-Ends there text_at) (λ _. check_exit-Ends proc code))))

  pub wait_for-Ends : Ends (wait_for sys proc true) (λ r. r ≡ checked proc code)
  unfolding wait_for
  wait_for-Ends = record {
    ends = λ w. (wait-Ends (exists w) (λ path. contents (stat w path))).ends w;
  }
