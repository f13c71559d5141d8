-- ===== src/Console.antt =====
-- The console operations of subrepos/plano/src/plano/main.py: colours, `cprint`, `print_properties`
-- and `output_redirected`. What is printed is kept as a template and its arguments.
pub mod Colors
pub mod Redirection
pub mod Alignment
use Prim.Native.Nat.{max}
use bsord.Base.{
  ℕ, zero, suc, ◌+◌, ◌-◌, Bool, true, false, ◌&&◌, not, Option, none, some, List, [], ◌∷◌, ◌++◌,
  Text, text_eq,
}
use bsord.Base.{str, length, if◌then◌else◌}
use mathlib.Core.Option
use bsord.Base.Dict
use bsord.Base.Dict.{Dict}
use bsord.World.{
  World, Call, Result, ok, err, Exception, Sink, file, Arg, shown, quoted, Message, message,
  printed, opened, pure, raise, gets, modify, when, or_raise, with_manager, ◌>>=◌, ◌>>◌,
}
use bsord.Logging.{info_if, OutputArg, open_file}

-- `print(..., file=sink)`
unfoldable pub print_to : Sink → Message → Call (Unit {0})
print_to sink m w = (ok tt, record w { events = w.events ++ printed sink m ∷ [] })

-- `print(...)`
unfoldable pub print : Message → Call (Unit {0})
unfolding print_to
print m w = print_to w.stdout m w

abbrev escape : ℕ → Text
escape digit = 0x1b ∷ b'[' ∷ b'3' ∷ digit ∷ []

abbrev pub color_codes : Dict Text Text
color_codes =
    (str "black", escape b'0')
    ∷ (str "red", escape b'1')
    ∷ (str "green", escape b'2')
    ∷ (str "yellow", escape b'3')
    ∷ (str "blue", escape b'4')
    ∷ (str "magenta", escape b'5')
    ∷ (str "cyan", escape b'6')
    ∷ (str "white", escape b'7')
    ∷ []

abbrev pub color_reset : Text
color_reset = 0x1b ∷ str "[0m"

-- `_get_color_code`, with `none` for the `KeyError` of an unknown colour.
unfoldable pub get_color_code : Text → Bool → Option Text
unfolding Dict.lookup
get_color_code color bright =
    Option.map (λ (code : Text). code ++ ((if bright then str ";1" else []) ++ str "m"))
      (Dict.lookup color color_codes)

-- A colour code that is wanted is used on a terminal only.
abbrev on_terminal : Sink → Text → Call (Option Text)
on_terminal sink code = gets (λ w. if w.is_tty sink then some code else none)

-- `console_color.__init__`: the colour code that is to be printed, if any. A bright colour that is
-- `None` is looked up too, and raises.
unfoldable pub color_code : Option Text → Bool → Sink → Call (Option Text)
unfolding get_color_code
color_code none false sink = pure none
color_code none true sink = raise (Exception.key_error (str "None"))
color_code (some color) bright sink =
    or_raise (get_color_code color bright) (Exception.key_error color) >>= on_terminal sink

-- What `__enter__` prints, the code, and what `__exit__` prints, the reset.
unfoldable pub print_code : Option Text → Sink → Text → Call (Unit {0})
unfolding print_to
print_code none sink text = pure tt
print_code (some code) sink text = print_to sink (message text [])

abbrev code_text : Option Text → Text
code_text none = []
code_text (some code) = code

-- `with console_color(color, bright, file): body`
unfoldable pub with_color : {A : Type 0} → Option Text → Bool → Sink → Call A → Call A
unfolding color_code print_code
with_color color bright sink body = do
  code ← color_code color bright sink
  with_manager (print_code code sink (code_text code)) (λ _. print_code code sink color_reset)
      (λ _. body)

-- `cprint(text, color, bright, file)`
unfoldable pub cprint_to : Sink → Text → Bool → Message → Call (Unit {0})
unfolding with_color
cprint_to sink color bright m = with_color (some color) bright sink (print_to sink m)

-- `cprint(text, color, bright)` to the current standard output
unfoldable pub cprint : Text → Bool → Message → Call (Unit {0})
unfolding cprint_to
cprint color bright m w = cprint_to w.stdout color bright m w

-- `cformat`
unfoldable pub cformat : (Sink → Bool) → Text → Option Text → Bool → Sink → Option Text
unfolding get_color_code
cformat is_tty value none false sink = some value
cformat is_tty value none true sink = if is_tty sink then none else some value
cformat is_tty value (some color) bright sink =
    if is_tty sink
    then Option.map (λ (code : Text). code ++ (value ++ color_reset)) (get_color_code color bright)
    else some value

-- `"{:<n}".format(text)`
unfoldable pub pad_right : ℕ → Text → Text
pad_right zero text = text
pad_right (suc n) [] = b' ' ∷ pad_right n []
pad_right (suc n) (c ∷ text) = c ∷ pad_right n text

-- `max([len(x[0]) for x in props])`, from the largest so far.
unfoldable pub label_size : ℕ → List (Text × List Arg) → ℕ
label_size size [] = size
label_size size ((name, _) ∷ props) = label_size (max size (length name)) props

abbrev pub label : ℕ → Text → Text
label size name = pad_right (size + 1) (name ++ str ":") ++ str "  "

-- One line for each property: its label and its values.
unfoldable pub print_lines : ℕ → List (Text × List Arg) → Call (Unit {0})
unfolding print pad_right
print_lines size [] = pure tt
print_lines size ((name, values) ∷ props) =
    print (message (label size name) values) >> print_lines size props

-- `print_properties`; the `max` of no properties is a `ValueError`.
unfoldable pub print_properties : List (Text × List Arg) → Call (Unit {0})
unfolding print_lines label_size
print_properties [] = raise Exception.value_error
print_properties (prop ∷ props) = print_lines (label_size 0 (prop ∷ props)) (prop ∷ props)

-- `output_redirected.__enter__`: the local variable `output` is assigned only for a path.
unfoldable pub enter_redirected : OutputArg → Bool → Call (Sink × Sink)
unfolding open_file
enter_redirected (OutputArg.path p) quiet = do
  info_if quiet (message (str "Redirecting output to file {}") (quoted p ∷ []))
  output ← open_file p
  prev ← gets (λ w. (w.stdout, w.stderr))
  modify (λ w. record w { stdout = output; stderr = output })
  pure prev
enter_redirected (OutputArg.opened_stream s) quiet = do
  info_if quiet (message (str "Redirecting output to file {}") (Arg.stream s ∷ []))
  raise Exception.unbound_local_error
enter_redirected OutputArg.no_output quiet = do
  info_if quiet (message (str "Redirecting output to file {}") (shown (str "None") ∷ []))
  raise Exception.unbound_local_error

-- `output_redirected.__exit__`
unfoldable pub exit_redirected : Sink × Sink → Call (Unit {0})
exit_redirected (out, errors) = modify (λ w. record w { stdout = out; stderr = errors })

-- `with output_redirected(output, quiet): body`
unfoldable pub with_output_redirected : {A : Type 0} → OutputArg → Bool → Call A → Call A
unfolding enter_redirected exit_redirected
with_output_redirected output quiet body =
    with_manager (enter_redirected output quiet) exit_redirected (λ prev. body)
