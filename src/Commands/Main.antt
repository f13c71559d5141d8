-- ===== src/Commands/Main.antt =====
-- `BaseCommand.main` of subrepos/plano/src/plano/command.py.
use bsord.Base.{Bool, false, ◌||◌, [], ◌∷◌, Text, str, if◌then◌else◌}
use bsord.Base.Int.{pos}
use bsord.World.{
  World, Call, Result, ok, err, Exception, is_plano_error, traceback, message, pure, ◌>>=◌, ◌>>◌,
}
use bsord.Logging.{no_output, with_logging}
use bsord.Console.{print_to}
use bsord.Processes.{exit, exit_text, exit_status}

-- What `main` reads of the parsed arguments.
pub record MainArgs : Type 0 where
  pub verbose : Bool
  pub quiet : Bool
  pub debug : Bool
  pub init_only : Bool

-- The assignments to `level`, each over the one before it.
unfoldable pub main_level : MainArgs → Text
main_level args =
    let level = str "notice" in
    let level = if args.verbose || args.debug then str "info" else level in
    let level = if args.quiet then str "error" else level in
    if args.debug then str "debug" else level

-- `_traceback.print_exc()`
abbrev pub print_traceback : Call (Unit {0})
print_traceback w = print_to w.stderr (message (str "{}") (traceback ∷ [])) w

-- The handlers of `main`, with `str` of an exception as the parameter `text_of`.
unfoldable pub handle :
    (Exception → Text) → MainArgs → Result (Unit {0}) × World → Result (Unit {0}) × World
unfolding print_to exit
handle text_of args (ok done, w) = (ok done, w)
handle text_of args (err Exception.keyboard_interrupt, w) = (ok tt, w)
handle text_of args (err e, w) =
    if is_plano_error e
    then (if args.debug
        then (print_traceback >> exit text_of (exit_status (pos 1)) false) w
        else exit text_of (exit_text (message (text_of e) [])) false w)
    else (err e, w)

-- The `try` block: `run` takes what `init` has left in the application.
abbrev pub init_and_run : {A : Type 0} → MainArgs → Call A → (A → Call (Unit {0})) → Call (Unit {0})
init_and_run args init run = do app ← init; if args.init_only then pure tt else run app

-- `main`, once the arguments are parsed.
unfoldable pub main :
    {A : Type 0} → (Exception → Text) → MainArgs → Call A → (A → Call (Unit {0})) → Call (Unit {0})
unfolding main_level
main text_of args init run =
    with_logging (main_level args) no_output
      (λ w. handle text_of args (init_and_run args init run w))
