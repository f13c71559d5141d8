-- ===== src/Environment/ModulePath.antt =====
-- `working_module_path` and the checks of subrepos/plano/src/plano/main.py.
use bsord.Base.{
  ◌≡◌, refl, ◌↔◌, Bool, true, false, Option, none, some, [], ◌∷◌, Text, text_eq, arith, str,
}
use bsord.Base.Dict.{has}
use bsord.World.{World, Call, ok, err, Exception, message, quoted, Message}
use bsord.Environment.{PathArg, module_path, with_module_path, check_env}

-- The body of the block runs with the new path, its result is passed on, and whatever it does to
-- the path, the path is the old one afterwards, and all else is as the body left it.
pub with_module_path-restores :
    {A : Type 0} (is_absolute : Text → Bool) (get_absolute_path : Text → Text) (path : PathArg)
    (amend : Bool) (body : Call A) (w : World)
    → with_module_path is_absolute get_absolute_path path amend body w ≡ (
        let (r, left) = body (record w {
          sys_path = module_path is_absolute get_absolute_path path amend w.sys_path;
        }) in
        (r, record left { sys_path = w.sys_path }))
unfolding with_module_path
with_module_path-restores is_absolute get_absolute_path path amend body w = refl

abbrev pub env_message : Text → Option Text → Message
env_message var none = message (str "Environment variable {} is not set") (quoted var ∷ [])
env_message var (some m) = message m []

-- `check_env` returns exactly when the variable is set, raises a `PlanoError` with the caller's
-- message or the default one otherwise, and changes nothing.
pub check_env_cases :
    (var : Text) (m : Option Text) (w : World)
    → ((check_env var m w).1 ≡ w)
      × (((check_env var m w).0 ≡ ok tt) ↔ (has var w.environ ≡ true))
      × (has var w.environ ≡ false
          → (check_env var m w).0 ≡ err (Exception.plano_error (env_message var m)))
unfolding check_env
check_env_cases var none w = ground arith
check_env_cases var (some m) w = ground arith
