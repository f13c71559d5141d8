-- ===== src/Environment.antt =====
-- The environment operations of subrepos/plano/src/plano/main.py: `working_env` and
-- `working_module_path`, which change process-wide tables for a `with` block, and the checks
-- `check_env`, `check_module` and `check_program`. What `which` and `find_loader` find is the
-- parameter `found`.
pub mod Variables
pub mod WorkingEnv
pub mod ModulePath
use bsord.Base.{
  Bool, not, Option, none, some, List, [], ◌∷◌, ◌++◌, Text, text_eq, str, if◌then◌else◌,
}
use bsord.Base.Dict
use bsord.Base.Dict.{Dict}
use bsord.World.{
  World, Call, Exception, Message, message, quoted, ok, pure, raise, gets, modify, when,
  with_manager, ◌>>=◌, ◌>>◌,
}

abbrev pub Env : Type 0
Env = Dict Text Text

-- `os.environ[name] = value`
unfoldable pub set_env : Text → Text → Call (Unit {0})
unfolding Dict.insert
set_env name value w = modify (λ w. record w { environ = Dict.insert name value w.environ }) w

-- `del os.environ[name]`
unfoldable pub del_env : Text → Call (Unit {0})
unfolding Dict.erase Dict.has
del_env name w =
    (if Dict.has name w.environ
        then modify (λ w. record w { environ = Dict.erase name w.environ })
        else raise (Exception.key_error name))
      w

-- `for name, value in vars.items(): os.environ[name] = str(value)`
unfoldable pub set_all : Env → Call (Unit {0})
unfolding set_env
set_all [] = pure tt
set_all ((name, value) ∷ vars) = set_env name value >> set_all vars

-- The loop of `__enter__` without `amend`, which deletes the variables that are not among `vars`,
-- and the last loop of `__exit__`, which deletes those of `vars` that were not set before: it
-- deletes the items whose names are not in `kept`.
unfoldable pub delete_unless : Env → Env → Call (Unit {0})
unfolding del_env
delete_unless kept [] = pure tt
delete_unless kept ((name, _) ∷ items) =
    when (not (Dict.has name kept)) (del_env name) >> delete_unless kept items

-- `working_env.__enter__`, which remembers the environment as it was.
unfoldable pub enter_env : Env → Bool → Call Env
unfolding set_all delete_unless
enter_env vars amend = do
  prev_vars ← gets (λ w. w.environ)
  when (not amend) (delete_unless vars prev_vars)
  set_all vars
  pure prev_vars

-- `working_env.__exit__`
unfoldable pub exit_env : Env → Env → Call (Unit {0})
unfolding set_all delete_unless
exit_env vars prev_vars = do set_all prev_vars; delete_unless prev_vars vars

-- `with working_env(amend=amend, **vars): body`
unfoldable pub with_env : {A : Type 0} → Env → Bool → Call A → Call A
unfolding enter_env exit_env
with_env vars amend body = with_manager (enter_env vars amend) (exit_env vars) (λ prev_vars. body)

-- The argument of `working_module_path`: one path or a list of them.
pub data PathArg : Type 0 where
  one_path : Text → PathArg
  paths : List Text → PathArg

-- `working_module_path.__init__`, with `is_absolute` and `get_absolute_path` as parameters.
unfoldable pub module_path : (Text → Bool) → (Text → Text) → PathArg → Bool → List Text → List Text
module_path is_absolute get_absolute_path (one_path path) amend sys_path =
    let path = if is_absolute path then path else get_absolute_path path in
    if amend then path ∷ [] ++ sys_path else path ∷ []
module_path is_absolute get_absolute_path (paths ps) amend sys_path =
    if amend then ps ++ sys_path else ps

-- `working_module_path.__enter__`, which remembers the path as it was.
unfoldable pub enter_path : List Text → Call (List Text)
enter_path path w = (ok w.sys_path, record w { sys_path = path })

-- `working_module_path.__exit__`
unfoldable pub exit_path : List Text → Call (Unit {0})
exit_path prev_path w = (ok tt, record w { sys_path = prev_path })

-- `with working_module_path(path, amend): body`
unfoldable pub with_module_path :
    {A : Type 0} → (Text → Bool) → (Text → Text) → PathArg → Bool → Call A → Call A
unfolding module_path enter_path exit_path
with_module_path is_absolute get_absolute_path path amend body w =
    let new_path = module_path is_absolute get_absolute_path path amend w.sys_path in
    with_manager (enter_path new_path) exit_path (λ prev_path. body) w

-- `raise PlanoError(message)` with the default message for a `None`.
abbrev missing : {A : Type 0} → Option Text → Message → Call A
missing none default = raise (Exception.plano_error default)
missing (some m) default = raise (Exception.plano_error (message m []))

unfoldable pub check_env : Text → Option Text → Call (Unit {0})
unfolding Dict.has
check_env var m w =
    (if Dict.has var w.environ
        then pure tt
        else missing m (message (str "Environment variable {} is not set") (quoted var ∷ [])))
      w

unfoldable pub check_module : (Text → Bool) → Text → Option Text → Call (Unit {0})
check_module found module_name m =
    if found module_name
    then pure tt
    else missing m (message (str "Module {} is not found") (quoted module_name ∷ []))

unfoldable pub check_program : (Text → Bool) → Text → Option Text → Call (Unit {0})
check_program found program m =
    if found program
    then pure tt
    else missing m (message (str "Program {} is not found") (quoted program ∷ []))
