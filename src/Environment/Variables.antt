-- ===== src/Environment/Variables.antt =====
-- What the loops of `working_env` in subrepos/plano/src/plano/main.py do to each variable.
use bsord.Base.{◌≡◌, refl, ◌∙◌, true, false, not, none, Text, text_eq, ◌==◌, [], ◌∷◌}
use bsord.Base.{arith, if◌then◌else◌}
use bsord.Base.Dict.{lookup, has, insert, erase, lookup-insert, lookup-erase, NodupKeys}
use bsord.World.{World, ok, bind_ok, when}
use bsord.Environment.{Env, set_all, delete_unless, del_env}

-- The environment after `set_all`.
unfoldable pub updated : Env → Env → Env
updated [] env = env
updated ((name, value) ∷ vars) env = updated vars (insert name value env)

pub set_all-updated :
    (vars : Env) (w : World)
    → set_all vars w ≡ (ok tt, record w { environ = updated vars w.environ })
unfolding set_all updated
set_all-updated [] w = refl
set_all-updated ((name, value) ∷ vars) w =
    set_all-updated vars (record w { environ = insert name value w.environ })

-- A variable that is set has its new value, and any other keeps its own.
pub lookup-updated :
    (vars env : Env) (n : Text)
    → NodupKeys vars
    → lookup n (updated vars env) ≡ (if has n vars then lookup n vars else lookup n env)
unfolding updated has lookup
lookup-updated [] env n u = refl
lookup-updated ((name, value) ∷ vars) env n (fresh, u) =
    ground (arith, lookup-updated vars (insert name value env) n u, lookup-insert n name value env)

-- The environment after a loop that deletes the items whose names are not in `kept`.
unfoldable pub reduced : Env → Env → Env → Env
reduced kept [] env = env
reduced kept ((name, _) ∷ items) env =
    reduced kept items (if has name kept then env else erase name env)

-- Every name of the items that is to be deleted is set.
abbrev pub AllSet : Env → Env → Env → Type 0
AllSet kept [] env = Unit
AllSet kept ((name, _) ∷ items) env =
    (has name kept ≡ false → has name env ≡ true) × AllSet kept items env

has-erase : (k j : Text) (env : Env) → has j (erase k env) ≡ (if j == k then false else has j env)
unfolding has erase
has-erase k j [] = ground arith
has-erase k j (_ ∷ env) = ground (arith, has-erase k j env)

AllSet-erase :
    (kept items env : Env) (k : Text)
    → has k items ≡ false
    → AllSet kept items env
    → AllSet kept items (erase k env)
unfolding has
AllSet-erase kept [] env k h s = tt
AllSet-erase kept ((name, _) ∷ items) env k h s =
    ground (arith, AllSet-erase kept items env k, has-erase k name env)

delete_item :
    (kept : Env) (name : Text) (w : World)
    → (has name kept ≡ false → has name w.environ ≡ true)
    → when (not (has name kept)) (del_env name) w
      ≡ (ok tt, record w { environ = if has name kept then w.environ else erase name w.environ })
unfolding del_env
delete_item kept name w set = ground arith

pub delete_unless-reduced :
    (kept items : Env) (w : World)
    → NodupKeys items
    → AllSet kept items w.environ
    → delete_unless kept items w ≡ (ok tt, record w { environ = reduced kept items w.environ })
unfolding delete_unless reduced
delete_unless-reduced kept [] w u s = refl
delete_unless-reduced kept ((name, value) ∷ items) w (fresh, u) (set, s) =
    bind_ok (when (not (has name kept)) (del_env name)) (λ _. delete_unless kept items) w
      (delete_item kept name w set)
    ∙ delete_unless-reduced kept items _ u
        (ground (arith, s, AllSet-erase kept items w.environ name fresh s))

pub lookup-reduced :
    (kept items env : Env) (n : Text)
    → lookup n (reduced kept items env)
      ≡ (if has n kept then lookup n env else if has n items then none else lookup n env)
unfolding reduced has
lookup-reduced kept [] env n = ground arith
lookup-reduced kept ((name, value) ∷ items) env n = ground (
  arith,
  lookup-reduced kept items env n,
  lookup-reduced kept items (erase name env) n,
  lookup-erase n name env,
)

pub AllSet-of :
    (kept items env : Env)
    → ((n : Text) → has n items ≡ true → has n kept ≡ false → has n env ≡ true)
    → AllSet kept items env
unfolding has
AllSet-of kept [] env h = tt
AllSet-of kept ((name, value) ∷ items) env h =
    (h name (ground arith), AllSet-of kept items env (λ n m. h n (ground arith)))
