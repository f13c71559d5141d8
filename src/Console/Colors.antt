-- ===== src/Console/Colors.antt =====
-- What a coloured block prints.
use bsord.Base.{◌≡◌, Bool, some, [], ◌∷◌, ◌++◌, Text, arith, if◌then◌else◌}
use bsord.World.{World, Call, Sink, message, printed}
use bsord.Console.{with_color, get_color_code, color_reset}

-- On a terminal a block in a known colour prints the colour's code before its body and the reset
-- code after it, also when the body raises, and passes on the body's result; elsewhere it is the
-- body alone.
pub with_color_balanced :
    {A : Type 0} (color code : Text) (bright : Bool) (sink : Sink) (body : Call A) (w : World)
    → get_color_code color bright ≡ some code
    → with_color (some color) bright sink body w ≡ (
        if w.is_tty sink
        then (let (r, left) =
              body (record w { events = w.events ++ printed sink (message code []) ∷ [] }) in
            (r, record left { events = left.events ++ printed sink (message color_reset []) ∷ [] }))
        else body w)
unfolding with_color
with_color_balanced color code bright sink body w known = ground arith
