-- ===== src/Console/Alignment.antt =====
-- `print_properties` of subrepos/plano/src/plano/main.py prints a table.
use Prim.Native.Nat.{max}
use bsord.Base.{
  ℕ, zero, suc, ◌≡◌, ◌≤◌, ◌+◌, ap, sym, ◌∙◌, ◌++◌, List, [], ◌∷◌, Text, arith, str, length,
  length-append, map, All,
}
use mathlib.Core.List.{append-nil, append_assoc}
use bsord.World.{World, Arg, Event, printed, message, ok}
use bsord.Console.{label, label_size, pad_right, print_lines, print_properties}

length-pad_right : (n : ℕ) (text : Text) → length (pad_right n text) ≡ max n (length text)
unfolding pad_right
length-pad_right zero text = omega arith
length-pad_right (suc n) [] = omega (arith, length-pad_right n [])
length-pad_right (suc n) (c ∷ text) = omega (arith, length-pad_right n text)

label_size-ge : (size : ℕ) (props : List (Text × List Arg)) → size ≤ label_size size props
unfolding label_size
label_size-ge size [] = omega arith
label_size-ge size ((name, values) ∷ props) =
    omega (arith, label_size-ge (max size (length name)) props)

-- Every label of the properties has one length.
label_size-All :
    (size : ℕ) (props : List (Text × List Arg)) (total : ℕ)
    → label_size size props ≤ total
    → All (λ prop. length (label total prop.0) ≡ total + 3) props
unfolding label_size
label_size-All size [] total h = tt
label_size-All size ((name, values) ∷ props) total h = (
  ground (
    arith,
    label_size-ge (max size (length name)) props,
    length-pad_right (total + 1) (name ++ str ":"),
    length-append {0} name (str ":"),
    length-append {0} (pad_right (total + 1) (name ++ str ":")) (str "  "),
  ),
  label_size-All (max size (length name)) props total h,
)

abbrev pub line : World → ℕ → Text × List Arg → Event
line w size (name, values) = printed w.stdout (message (label size name) values)

pub print_lines_lem :
    (size : ℕ) (props : List (Text × List Arg)) (w : World)
    → print_lines size props w ≡ (ok tt, record w { events = w.events ++ map (line w size) props })
unfolding print_lines
print_lines_lem size [] w = ap (λ es. (ok tt, record w { events = es })) (sym (append-nil w.events))
print_lines_lem size ((name, values) ∷ props) w =
    print_lines_lem size props (record w { events = w.events ++ line w size (name, values) ∷ [] })
    ∙ ap (λ es. (ok tt, record w { events = es })) (append_assoc w.events _ _)

-- `print_properties` of at least one property prints a line for each, in order, and the labels in
-- front of their values are all of one length: that of the longest name and three characters more.
pub print_properties_aligned :
    (prop : Text × List Arg) (props : List (Text × List Arg)) (w : World)
    → let size = label_size 0 (prop ∷ props) in
      (print_properties (prop ∷ props) w
        ≡ (ok tt, record w { events = w.events ++ map (line w size) (prop ∷ props) }))
      × All (λ prop. length (label size prop.0) ≡ size + 3) (prop ∷ props)
unfolding print_properties
print_properties_aligned prop props w = (
  print_lines_lem (label_size 0 (prop ∷ props)) (prop ∷ props) w,
  label_size-All 0 (prop ∷ props) (label_size 0 (prop ∷ props)) (omega arith),
)
