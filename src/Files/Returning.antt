-- ===== src/Files/Returning.antt =====
-- What a `with working_dir` block leaves behind.
use bsord.Base.{
  ◌≡◌, refl, ap, ◌∙◌, arith, Bool, true, false, not, ◌||◌, Option, none, some, List, [], ◌∷◌, Text,
  text_eq, str, ◌==◌, Location, if◌then◌else◌,
}
use bsord.World.{
  World, Call, Event, Message, ok, pure, gets, when, message, quoted, bind_ok, with_manager_ok,
  ◌>>=◌, ◌>>◌,
}
use bsord.Logging.{log, print_message, info_if, debug_if}
use bsord.FileSystem.{followed, node_at, is_directory, path_of, os_chdir}
use bsord.Paths.{get_absolute_path}
use bsord.Files.{exists, make_dir, change_dir}
use bsord.Files.Blocks.{enter_dir, exit_dir, in_dir}

-- Log messages change the events only.
pub debug_if-events :
    (quiet : Bool) (m : Message) (w : World)
    → debug_if quiet m w ≡ (ok tt, record w { events = (debug_if quiet m w).1.events })
unfolding debug_if log print_message
debug_if-events quiet m w = ground arith

info_if-events :
    (quiet : Bool) (m : Message) (w : World)
    → info_if quiet m w ≡ (ok tt, record w { events = (info_if quiet m w).1.events })
unfolding info_if log print_message
info_if-events quiet m w = ground arith

-- A path that leads to a directory.
pub record LeadsTo (w : World) (path : Text) (loc : Location) : Type 0 where
  pub given : (path == []) ≡ false
  pub leads : followed w path ≡ some loc
  pub there : is_directory (node_at w.files loc) ≡ true

os_chdir-there :
    (w : World) (path : Text) (loc : Location)
    → LeadsTo w path loc
    → os_chdir path w ≡ (ok tt, record w { current_dir = path_of loc })
unfolding os_chdir
os_chdir-there w path loc h = rw (h.leads, h.there) refl

abbrev moved : List Event → Location → World → World
moved events loc w = record w { events = events; current_dir = path_of loc }

change_dir-there :
    (w : World) (path : Text) (loc : Location)
    → LeadsTo w path loc
    → (events : List Event) × (change_dir path true w ≡ (ok w.current_dir, moved events loc w))
unfolding change_dir
change_dir-there w path loc h =
    let m = message (str "Changing directory to {}") (quoted path ∷ []) in
    let w₁ : World = record w { events = (debug_if true m w).1.events } in
    let rest : Bool → Call Text =
      λ b. gets (λ w. w.current_dir) >>= λ prev. when (not b) (os_chdir path) >> pure prev in
    (
      w₁.events,
      bind_ok (debug_if true m) (λ _. rest (path == [])) w (debug_if-events true m w)
          ∙ ap (λ b. rest b w₁) h.given
          ∙ bind_ok (os_chdir path) (λ _. pure w.current_dir) w₁
              (os_chdir-there w₁ path loc
                (record { given = h.given; leads = h.leads; there = h.there })),
    )

make_dir-kept :
    (w : World) (dir : Text)
    → (dir == [] || exists w dir) ≡ true
    → make_dir dir true w ≡ (ok dir, w)
unfolding make_dir
make_dir-kept w dir h = rw h refl

-- The block starts in its directory.
enter_dir-there :
    (w : World) (dir : Text) (quiet : Bool) (loc : Location)
    → (dir == str ".") ≡ false
    → (dir == [] || exists w dir) ≡ true
    → LeadsTo w dir loc
    → (events : List Event) × (enter_dir dir quiet w
        ≡ (ok (some w.current_dir), moved events loc w))
unfolding enter_dir
enter_dir-there w dir quiet loc other there h =
    let m = message (str "Entering directory {}") (quoted (get_absolute_path w dir) ∷ []) in
    let w₁ : World = record w { events = (info_if quiet m w).1.events } in
    let (events, changed) =
      change_dir-there w₁ dir loc (record { given = h.given; leads = h.leads; there = h.there }) in
    let step : Call (Option Text) = change_dir dir true >>= λ prev. pure (some prev) in
    let whole : Call (Option Text) = info_if quiet m >> (make_dir dir true >> step) in
    (
      events,
      ap (λ (b : Bool). (if b then pure none else whole) w) other
          ∙ bind_ok (info_if quiet m) (λ _. make_dir dir true >> step) w (info_if-events quiet m w)
          ∙ bind_ok (make_dir dir true) (λ _. step) w₁ (make_dir-kept w₁ dir there)
          ∙ bind_ok (change_dir dir true) (λ prev. pure (some prev)) w₁ changed,
    )

exit_dir-there :
    (w : World) (dir prev_dir : Text) (quiet : Bool) (loc : Location)
    → LeadsTo w prev_dir loc
    → (events : List Event) × (exit_dir dir false quiet (some prev_dir) w
        ≡ (ok tt, moved events loc w))
unfolding exit_dir
exit_dir-there w dir prev_dir quiet loc h =
    let m =
      message (str "Returning to directory {}") (quoted (get_absolute_path w prev_dir) ∷ []) in
    let w₁ : World = record w { events = (debug_if quiet m w).1.events } in
    let (events, changed) =
      change_dir-there w₁ prev_dir loc
        (record { given = h.given; leads = h.leads; there = h.there }) in
    (
      events,
      bind_ok (debug_if quiet m) (λ _. change_dir prev_dir true >> pure tt) w
            (debug_if-events quiet m w)
          ∙ bind_ok (change_dir prev_dir true) (λ _. pure tt) w₁ changed,
    )

-- A block in a directory that is there, given by a path other than ".", runs its body in that
-- directory and has the result of its body; and if the path of the directory that was current
-- before still leads to it after the body, it is current again, and the files are as the body
-- left them.
pub in_dir-restores :
    {A : Type 0} (dir : Text) (quiet : Bool) (body : Call A) (w : World) (loc home : Location)
    → (dir == str ".") ≡ false
    → (dir == [] || exists w dir) ≡ true
    → LeadsTo w dir loc
    → path_of home ≡ w.current_dir
    → ((events : List Event)
        → LeadsTo
            (body (record w { events = events; current_dir = path_of loc })).1
            w.current_dir
            home)
    → (events : List Event) × let (r, w₂) =
          body (record w { events = events; current_dir = path_of loc }) in
        let (s, w₃) = in_dir dir false quiet body w in
        (s ≡ r) × (w₃.current_dir ≡ w.current_dir) × (w₃.files ≡ w₂.files)
unfolding in_dir
in_dir-restores dir quiet body w loc home other there h same back =
    let (before, entered) = enter_dir-there w dir quiet loc other there h in
    let w₂ = (body (moved before loc w)).1 in
    let (after, left) = exit_dir-there w₂ dir w.current_dir quiet home (back before) in
    let whole =
      with_manager_ok (enter_dir dir quiet) (exit_dir dir false quiet) (λ prev. body) w entered
        left in
    (
      before,
      (ap (λ p. p.0) whole, ap (λ p. p.1.current_dir) whole ∙ same, ap (λ p. p.1.files) whole),
    )
