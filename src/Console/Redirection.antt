-- ===== src/Console/Redirection.antt =====
-- What a `with output_redirected` block leaves behind.
use bsord.Base.{◌≡◌, Bool, Text, str, arith, if◌then◌else◌}
use bsord.World.{World, Call, err, Exception, file}
use bsord.Logging.{OutputArg, info_if}
use bsord.Console.{with_output_redirected, enter_redirected}

-- A block that redirects to a path that can be opened runs its body with both outputs there, passes
-- on its result, and has the old outputs again afterwards, whatever the body did to them. If the
-- path cannot be opened the block raises an `OSError`, its body does not run, and the outputs stay as
-- they are.
pub with_output_redirected-restores :
    {A : Type 0} (p : Text) (quiet : Bool) (body : Call A) (w : World)
    → let inside = (enter_redirected (OutputArg.path p) quiet w).1 in
      let (r, w') = with_output_redirected (OutputArg.path p) quiet body w in
      (w'.stdout ≡ w.stdout)
      × (w'.stderr ≡ w.stderr)
      × (if w.can_open p
          then (inside.stdout ≡ file p) × (inside.stderr ≡ file p) × (r ≡ (body inside).0)
          else (r ≡ err (Exception.os_error (str "OSError"))) × (w'.events ≡ inside.events))
unfolding with_output_redirected info_if
with_output_redirected-restores p quiet body w = ground arith
