-- ===== src/Commands/Nesting.antt =====
-- The stack of running commands.
use bsord.Base.{
  ℕ, zero, suc, ◌≡◌, ◌∙◌, refl, ap, false, some, List, [], ◌∷◌, ◌++◌, Text, arith, inl, inr,
  text_eq, Option-cases, str,
}
use bsord.Base.Dict
use bsord.Base.Dict.{Dict}
use bsord.World.{
  World, Call, Result, ok, err, pure, gets, resume, Message, Sink, Arg, printed, ◌>>=◌, ◌>>◌,
  message, shown,
}
use bsord.Logging.{debug, log, print_message}
use bsord.Console.{with_color, get_color_code, print_to, cprint_to}
use bsord.Console.Colors.{with_color_balanced}
use bsord.Commands.{
  Command, call_command, run_command, announce, conclude, push_running, pop_running, eprint, dashes,
  print_magenta, print_outer, Value, of_result, DisplayArg, display_args, print_display_args,
}

-- A call that leaves the running commands as `f` makes them if it returns.
record Moves {A : Type 0} (f : List Text → List Text) (m : Call A) : Type 0 where
  moves : (w : World) (a : A) → (m w).0 ≡ ok a → (m w).1.running_commands ≡ f w.running_commands

abbrev same : List Text → List Text
same names = names

resume-ok :
    {A B : Type 0} (k : A → Call B) (p : Result A × World) (b : B)
    → (resume k p).0 ≡ ok b
    → (a : A) × (p.0 ≡ ok a) × ((k a p.1).0 ≡ ok b) × ((resume k p).1 ≡ (k a p.1).1)
resume-ok k (ok a, w) b e = (a, refl, e, refl)
resume-ok k (err x, w) b e = absurd cc

bind-Moves :
    {A B : Type 0} {f g : List Text → List Text} {m : Call A} {k : A → Call B}
    → Moves f m
    → ((a : A) → Moves g (k a))
    → Moves (λ names. g (f names)) (m >>= k)
bind-Moves {f} {g} {m} {k} hm hk = record {
  moves = λ w b e.
      let (a, returned, rest, last) = resume-ok k (m w) b e in
      ap (λ (v : World). v.running_commands) last
      ∙ ((hk a).moves (m w).1 b rest ∙ ap g (hm.moves w a returned));
}

then-Moves :
    {A B : Type 0} {f g : List Text → List Text} {m : Call A} {k : Call B}
    → Moves f m
    → Moves g k
    → Moves (λ names. g (f names)) (m >> k)
then-Moves hm hk = bind-Moves hm (λ a. hk)

debug-Moves : (m : Message) → Moves same (debug m)
unfolding log print_message
debug-Moves m = record { moves = λ w a e. ground arith }

magenta_known : (code : Text) × (get_color_code (str "magenta") false ≡ some code)
unfolding get_color_code text_eq
magenta_known = (0x1b ∷ str "[35m", refl)

-- Colours leave the running commands alone.
in_magenta-Moves :
    {A : Type 0} {m : Sink → Call A}
    → ((sink : Sink) → Moves same (m sink))
    → Moves same (λ w. with_color (some (str "magenta")) false w.stderr (m w.stderr) w)
in_magenta-Moves {A} {m} h = record {
  moves = λ w a e.
      let (code, known) = magenta_known in
      let coloured = with_color_balanced (str "magenta") code false w.stderr (m w.stderr) w known in
      ground (
        arith,
        (h w.stderr).moves w a,
        (h w.stderr).moves
            (record w { events = w.events ++ printed w.stderr (message code []) ∷ [] }) a,
      );
}

eprint-Moves : (t : Text) (args : List Arg) → Moves same (eprint t args)
unfolding eprint print_to
eprint-Moves t args = record { moves = λ w a e. refl }

print_to-Moves : (sink : Sink) (m : Message) → Moves same (print_to sink m)
unfolding print_to
print_to-Moves sink m = record { moves = λ w a e. refl }

print_magenta-Moves : (t : Text) (args : List Arg) → Moves same (print_magenta t args)
unfolding cprint_to
print_magenta-Moves t args =
    in_magenta-Moves {m = λ sink. print_to sink (message t args)}
      (λ sink. print_to-Moves sink (message t args))

push_running-Moves : (name : Text) → Moves (λ names. name ∷ names) (push_running name)
unfolding push_running
push_running-Moves name = record { moves = λ w a e. refl }

abbrev without_first : List Text → List Text
without_first [] = []
without_first (name ∷ names) = names

pop_running-Moves : Moves without_first pop_running
unfolding pop_running
pop_running-Moves = record { moves = λ w a e. ground arith }

of_result-Moves : {A : Type 0} (r : Result A) → Moves same (of_result r)
of_result-Moves r = record { moves = λ w a e. refl }

pure-Moves : {A : Type 0} (a : A) → Moves same (pure a)
pure-Moves a = record { moves = λ w b e. refl }

print_display_args-Moves : (ds : List DisplayArg) → Moves same (print_display_args ds)
print_display_args-Moves [] = pure-Moves tt
print_display_args-Moves (d ∷ ds) = eprint-Moves _ _

announce-Moves :
    (self : Command) (args : List Value) (kwargs : Dict Text Value)
    → Moves (λ names. self.name ∷ names) (announce self args kwargs)
unfolding announce
announce-Moves self args kwargs = then-Moves (debug-Moves _) (
    bind-Moves (push_running-Moves self.name) (λ n.
      bind-Moves (of_result-Moves (display_args 0 self.parameters args kwargs)) (λ displayed.
        then-Moves
          (in_magenta-Moves (λ sink.
            then-Moves (eprint-Moves (str "{}> {}") (shown (dashes n) ∷ shown self.name ∷ []))
              (then-Moves (print_display_args-Moves displayed) (eprint-Moves [] []))))
          (pure-Moves n))))

print_outer-Moves : (n : ℕ) (names : List Text) → Moves same (print_outer n names)
print_outer-Moves n [] = pure-Moves tt
print_outer-Moves n (name ∷ names) = print_magenta-Moves _ _

gets-Moves : {A : Type 0} (f : World → A) → Moves same (gets f)
gets-Moves f = record { moves = λ w a e. refl }

conclude-Moves : (self : Command) (n : ℕ) → Moves without_first (conclude self n)
unfolding conclude
conclude-Moves self n =
    then-Moves (print_magenta-Moves _ _)
      (then-Moves pop_running-Moves (bind-Moves (gets-Moves _) (print_outer-Moves n)))

-- A command whose function leaves the running commands as they were when it returns.
abbrev pub Restoring : Command → Type 0
Restoring command =
    (args : List Value) (kwargs : Dict Text Value) (w : World)
    → (command.function args kwargs w).0 ≡ ok tt
    → (command.function args kwargs w).1.running_commands ≡ w.running_commands

run_command-Moves :
    (self : Command) (args : List Value) (kwargs : Dict Text Value)
    → Restoring self
    → Moves same (run_command self args kwargs)
unfolding run_command
run_command-Moves self args kwargs h =
    bind-Moves (announce-Moves self args kwargs)
      (λ n. then-Moves (record { moves = λ w a e. h args kwargs w e }) (conclude-Moves self n))

-- A call of a command that returns leaves the stack of running commands as it was, at any depth
-- and whichever command is bound to the name, if the functions of the command and of the bound
-- commands do so.
pub call_command-balanced :
    (depth : ℕ) (bound : Dict Text Command) (self : Command) (args : List Value)
    (kwargs : Dict Text Value) (w : World)
    → Restoring self
    → ((name : Text) (command : Command)
        → Dict.lookup name bound ≡ some command
        → Restoring command)
    → (call_command depth bound self args kwargs w).0 ≡ ok tt
    → (call_command depth bound self args kwargs w).1.running_commands ≡ w.running_commands
unfolding call_command
call_command-balanced zero bound self args kwargs w h hs e = absurd cc
call_command-balanced (suc depth) bound self args kwargs w h hs e =
    elim (Option-cases (Dict.lookup self.name bound)) [
      | inl missing ↦ ground arith
      | inr (command, found) ↦ ground (
        arith,
        (run_command-Moves self args kwargs h).moves w tt,
        call_command-balanced depth bound command args kwargs w (hs self.name command found) hs,
      )
    ]
