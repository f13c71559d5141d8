-- ===== src/Environment/WorkingEnv.antt =====
-- What a `with working_env` block sees and what it leaves behind.
use bsord.Base.{◌≡◌, ap, ◌∙◌, Bool, true, false, none, Text, text_eq, arith, if◌then◌else◌}
use bsord.Base.Dict.{lookup, has, has-lookup, NodupKeys}
use bsord.World.{World, Call, ok, pure, bind_ok, with_manager_ok, ◌>>◌}
use bsord.Environment.{Env, enter_env, exit_env, with_env, set_all, delete_unless}
use bsord.Environment.Variables.{
  updated, reduced, set_all-updated, delete_unless-reduced, lookup-updated, lookup-reduced,
  AllSet-of,
}

enter_env_amend :
    (vars : Env) (w : World)
    → enter_env vars true w ≡ (ok w.environ, record w { environ = updated vars w.environ })
unfolding enter_env
enter_env_amend vars w = bind_ok (set_all vars) (λ _. pure w.environ) w (set_all-updated vars w)

enter_env_replace :
    (vars : Env) (w : World)
    → NodupKeys w.environ
    → enter_env vars false w
      ≡ (ok w.environ, record w { environ = updated vars (reduced vars w.environ w.environ) })
unfolding enter_env
enter_env_replace vars w u =
    let env = w.environ in
    bind_ok (delete_unless vars env) (λ _. set_all vars >> pure env) w
      (delete_unless-reduced vars env w u (AllSet-of vars env env (λ n s k. s)))
    ∙ bind_ok (set_all vars) (λ _. pure env) (record w { environ = reduced vars env env })
        (set_all-updated vars _)

-- The state in which the body of the block starts.
abbrev pub entered : Env → Bool → World → World
entered vars amend w = (enter_env vars amend w).1

-- Inside the block the variables that it names have their new values; any other variable keeps its
-- value if the block amends the environment, and is unset if it does not.
pub lookup-entered :
    (vars : Env) (amend : Bool) (w : World) (n : Text)
    → NodupKeys vars
    → NodupKeys w.environ
    → lookup n (entered vars amend w).environ
      ≡ (if has n vars then lookup n vars else if amend then lookup n w.environ else none)
lookup-entered vars true w n u v =
    rw (entered, enter_env_amend vars w) (lookup-updated vars w.environ n u)
lookup-entered vars false w n u v =
    rw (entered, enter_env_replace vars w v)
      (ground (
        arith,
        lookup-updated vars (reduced vars w.environ w.environ) n u,
        lookup-reduced vars w.environ w.environ n,
        has-lookup n w.environ,
      ))

enter_env_ok :
    (vars : Env) (amend : Bool) (w : World)
    → NodupKeys w.environ
    → enter_env vars amend w ≡ (ok w.environ, entered vars amend w)
enter_env_ok vars true w v = rw (entered, enter_env_amend vars w)
enter_env_ok vars false w v = rw (entered, enter_env_replace vars w v)

exit_env_lem :
    (vars prev : Env) (w : World)
    → NodupKeys vars
    → NodupKeys prev
    → ((n : Text) → has n vars ≡ true → has n w.environ ≡ true)
    → exit_env vars prev w
      ≡ (ok tt, record w { environ = reduced prev vars (updated prev w.environ) })
unfolding exit_env
exit_env_lem vars prev w u v set =
    bind_ok (set_all prev) (λ _. delete_unless prev vars) w (set_all-updated prev w)
    ∙ delete_unless-reduced prev vars (record w { environ = updated prev w.environ }) u
        (AllSet-of prev vars _ (λ n m k. ground (
          arith,
          set n,
          lookup-updated prev w.environ n v,
          has-lookup n w.environ,
          has-lookup n (updated prev w.environ),
        )))

-- A block passes on its body's result, and a variable that was set before the block has its old
-- value after it, a variable that only the block named is unset, and any other is as the body left
-- it, provided that the body unsets none of the variables that the block named.
pub with_env-restores :
    {A : Type 0} (vars : Env) (amend : Bool) (body : Call A) (w : World)
    → NodupKeys vars
    → NodupKeys w.environ
    → ((n : Text) → has n vars ≡ true → has n (body (entered vars amend w)).1.environ ≡ true)
    → let (r, w') = with_env vars amend body w in
      (r ≡ (body (entered vars amend w)).0)
      × ((n : Text)
          → lookup n w'.environ ≡ (
              if has n w.environ
              then lookup n w.environ
              else if has n vars
              then none
              else lookup n (body (entered vars amend w)).1.environ))
unfolding with_env
with_env-restores vars amend body w u v set =
    let env = w.environ in
    let left = (body (entered vars amend w)).1 in
    let whole =
      with_manager_ok (enter_env vars amend) (exit_env vars) (λ prev. body) w
        (enter_env_ok vars amend w v) (exit_env_lem vars env left u v set) in
    (
      ap (λ p. p.0) whole,
      λ n.
          ap (λ p. lookup n p.1.environ) whole
          ∙ ground (
            arith,
            lookup-reduced env vars (updated env left.environ) n,
            lookup-updated env left.environ n v,
          ),
    )
