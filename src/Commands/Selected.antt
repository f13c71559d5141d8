-- ===== src/Commands/Selected.antt =====
-- How the application of subrepos/plano/src/plano/command.py runs the commands that the command line
-- names.
use mathlib.Core.List.{append-nil, append_assoc}
use bsord.Base.{
  ℕ, ◌≡◌, refl, ap, ◌∙◌, ◌<◌, ◌==◌, Bool, if◌then◌else◌, ◌||◌, sym, true, false, not, ◌&&◌, Option,
  some, List, [], ◌∷◌, ◌++◌, Text, text_eq, str, map, contains, All, join_texts, arith,
}
use bsord.Base.Dict
use bsord.Base.Dict.{Dict}
use bsord.World.{World, Call, Result, ok, err, Exception, message, elapsed, resume, ◌>>◌}
use bsord.Console.{cprint_to}
use bsord.Commands.Calls.{print_magenta}
use bsord.Logging.{enter_logging, no_output}
use bsord.Commands.{
  Command, Value, bind_commands, MainArgs, main_level, init_and_run, Namespace, but_last, last_or,
  call_each, call_selected, invocation, collect_arguments, is_positional, CommandParameter,
  positional_values, with_keyword, list_value, call_command, init, run, is_nonempty,
  preceding_commands,
}
use bsord.Commands.Binding.{last_named, lookup-bind_commands}
use bsord.Commands.CommandLine.{IsUncut, preceding_commands-joined}
use bsord.Commands.Endings.{ending, main-ends}
use bsord.Commands.Parser.{process_commands, values, Subparser}
use bsord.Commands.Application.{
  PreArgs, ParsedArgs, ArgumentParser, Variables, Application, pre_arguments, shared_arguments,
  parse_args, main_parsed, main_application,
}

module _ (depth : ℕ) (bound : Dict Text Command) where
  -- Calls of commands without arguments, one after another, and a last call.
  abbrev pub in_order : List Command → Call (Unit {0}) → Call (Unit {0})
  in_order [] last = last
  in_order (command ∷ commands) last =
      call_command depth bound command [] [] >> in_order commands last

  -- A call of a command, and the line that says that it has returned and how long it took.
  abbrev pub call_and_report : Command → List Value → Dict Text Value → Call (Unit {0})
  call_and_report command args kwargs = do
    call_command depth bound command args kwargs
    (λ w. cprint_to w.stderr (str "green") false (message (str "OK") []) w)
    print_magenta (str " ({})") (elapsed ∷ [])

abbrev pub is_passthrough : CommandParameter → Bool
is_passthrough param = param.name == str "passthrough_args"

-- The values for the positional parameters: one for each, and all there are for one that is multiple.
abbrev pub positional : Namespace → List CommandParameter → List Value
positional ns [] = []
positional ns (param ∷ params) =
    let rest = positional ns params in
    if is_passthrough param || not (is_positional param)
    then rest
    else if param.multiple
    then ns.values param.name ++ rest
    else ns.value param.name ∷ rest

-- The values for the others, by name.
abbrev pub keywords : Namespace → List CommandParameter → Dict Text Value → Dict Text Value
keywords ns [] kwargs = kwargs
keywords ns (param ∷ params) kwargs = keywords ns params (
    if is_passthrough param || is_positional param
    then kwargs
    else Dict.insert param.name (ns.value param.name) kwargs)

positional-first :
    (ns : Namespace) (param : CommandParameter) (params : List CommandParameter)
    → positional ns (param ∷ params) ≡ positional_values ns param ++ positional ns params
positional-first ns param params = ground arith

with_keyword-first :
    (ns : Namespace) (param : CommandParameter) (kwargs : Dict Text Value)
    → with_keyword ns param kwargs ≡ (
        if is_passthrough param || is_positional param
        then kwargs
        else Dict.insert param.name (ns.value param.name) kwargs)
with_keyword-first ns param kwargs = ground arith

-- A call before two others, in one or the other grouping.
resume-in_order :
    (m k : Call (Unit {0})) (last : Call (Unit {0})) (p : Result (Unit {0}) × World)
    → ((w : World) → (m >> last) w ≡ k w)
    → resume (λ _. last) (resume (λ _. m) p) ≡ resume (λ _. k) p
resume-in_order m k last (ok done, w) h = h w
resume-in_order m k last (err e, w) h = refl

collect_arguments_lem :
    (ns : Namespace) (params : Dict Text CommandParameter) (args : List Value)
    (kwargs : Dict Text Value)
    → collect_arguments ns params args kwargs
      ≡ (args ++ positional ns (values params), keywords ns (values params) kwargs)
unfolding collect_arguments
collect_arguments_lem ns [] args kwargs = ap (λ l. (l, kwargs)) (sym (append-nil args))
collect_arguments_lem ns ((k, param) ∷ params) args kwargs =
    let given = positional_values ns param in
    let named = with_keyword ns param kwargs in
    collect_arguments_lem ns params (args ++ given) named
    ∙ ap (λ l. (l, keywords ns (values params) named))
        (append_assoc args given (positional ns (values params))
          ∙ ap (λ l. args ++ l) (sym (positional-first ns param (values params))))
    ∙ ap (λ kw. (args ++ positional ns (param ∷ values params), keywords ns (values params) kw))
        (with_keyword-first ns param kwargs)

module _ (parser : ArgumentParser) (depth : ℕ) (bound : Dict Text Command) where
  -- The preceding commands without arguments, and then the command with its own.
  abbrev pub call_all : List Command → Namespace → List Text → Command → Call (Unit {0})
  call_all preceding ns passthrough_args command =
      let params = values command.parameters in
      let kwargs = keywords ns params [] in
      in_order depth bound preceding (
        call_and_report depth bound command (positional ns params) (
          if command.passthrough
          then Dict.insert (str "passthrough_args") (list_value passthrough_args) kwargs
          else kwargs))

  call_each_lem :
      (preceding : List Command) (last : Call (Unit {0})) (w : World)
      → (call_each parser.parser_error bound depth preceding >> last) w
        ≡ in_order depth bound preceding last w
  unfolding call_each
  call_each_lem [] last w = refl
  call_each_lem (command ∷ commands) last w =
      resume-in_order (call_each parser.parser_error bound depth commands)
        (in_order depth bound commands last) last (call_command depth bound command [] [] w)
        (call_each_lem commands last)

  call_selected_lem :
      (ns : Namespace) (passthrough_args : List Text) (command : Command)
      → call_selected parser.parser_error bound depth
          (invocation parser.parser_error bound depth ns passthrough_args command)
        ≡ call_all [] ns passthrough_args command
  unfolding call_selected invocation
  call_selected_lem ns passthrough_args command =
      ap
        (λ (p : List Value × Dict Text Value). call_and_report depth bound command p.0 (
          if command.passthrough
          then Dict.insert (str "passthrough_args") (list_value passthrough_args) p.1
          else p.1))
        (collect_arguments_lem ns command.parameters [] [])

  init_and_run-calls :
      (args : MainArgs) (ns : Namespace) (preceding : List Command) (passthrough_args : List Text)
      (name : Text) (command : Command) (w : World)
      → args.init_only ≡ false
      → ns.help ≡ false
      → ns.command ≡ some name
      → Dict.lookup name bound ≡ some command
      → (not command.passthrough && is_nonempty parser.parser_error bound depth passthrough_args)
        ≡ false
      → init_and_run args
          (init parser.parser_error bound depth ns preceding passthrough_args)
          (run parser.parser_error bound depth parser.print_help ns true)
          w
        ≡ (call_each parser.parser_error bound depth preceding
              >> call_selected parser.parser_error bound depth
                  (invocation parser.parser_error bound depth ns passthrough_args command))
            w
  unfolding init run
  init_and_run-calls args ns preceding passthrough_args name command w only help named found known =
      ground arith

  -- `init` and `run` call the preceding commands and then the selected one.
  init_and_run-selected :
      (args : MainArgs) (ns : Namespace) (preceding : List Command) (passthrough_args : List Text)
      (name : Text) (command : Command) (w : World)
      → args.init_only ≡ false
      → ns.help ≡ false
      → ns.command ≡ some name
      → Dict.lookup name bound ≡ some command
      → (not command.passthrough && is_nonempty parser.parser_error bound depth passthrough_args)
        ≡ false
      → init_and_run args
          (init parser.parser_error bound depth ns preceding passthrough_args)
          (run parser.parser_error bound depth parser.print_help ns true)
          w
        ≡ call_all preceding ns passthrough_args command w
  init_and_run-selected args ns preceding passthrough_args name command w only help named found
        known =
      let i = invocation parser.parser_error bound depth ns passthrough_args command in
      init_and_run-calls args ns preceding passthrough_args name command w only help named found
        known
      ∙ call_each_lem preceding (call_selected parser.parser_error bound depth i) w
      ∙ ap (λ last. in_order depth bound preceding last w)
          (call_selected_lem ns passthrough_args command)

-- The application over a module, before and after its commands are bound.
abbrev pub over_module : Variables → Application
over_module vars = record { module_vars = some vars; bound_commands = [] }

abbrev pub bound_to : Variables → Application
bound_to vars = record { module_vars = some vars; bound_commands = bind_commands vars [] }

map-lookup :
    (names : List Text) (vars : Variables)
    → map (λ name. Dict.lookup name (bind_commands vars [])) names
      ≡ map (λ name. last_named name vars) names
map-lookup [] vars = refl
map-lookup (name ∷ names) vars = rw (lookup-bind_commands name vars, map-lookup names vars) refl

module _ (parser : ArgumentParser) (text_of : Exception → Text) (upper : ℕ → Text)
    (repr_text : Value → Text) (texts : Command → Option Text × Option Text)
    (exec_module : Text → Call Variables) (import_module : Text → Option Variables) where
  abbrev pub subparsers : Variables → List Subparser
  subparsers vars = process_commands upper repr_text texts (bind_commands vars [])

  parse_args_lem :
      (vars : Variables) (pre : PreArgs) (args args' : List Text) (preceding : List Command)
      (parsed : ParsedArgs) (w w₁ w₂ : World)
      → parser.parse_pre (pre_arguments upper true) args w ≡ (ok pre, w₁)
      → preceding_commands parser.parser_error (bind_commands vars []) pre.command args w₁
        ≡ (ok (preceding, args'), w₁)
      → parser.parse_known (shared_arguments upper true) (subparsers vars) args' w₁
        ≡ (ok parsed, w₂)
      → parse_args parser text_of upper repr_text texts exec_module import_module
          (over_module vars)
          args
          w
        ≡ (ok (bound_to vars, preceding, parsed), w₂)
  unfolding parse_args
  parse_args_lem vars pre args args' preceding parsed w w₁ w₂ h k l = rw (h, k, l) refl

  -- If the command line names several commands joined by commas, which are bound in the module that the
  -- application is over, and argparse finds first the names and then the last of them, with no
  -- arguments left over unless the last command takes them, the program calls the others in order,
  -- without arguments, and then the last with its arguments, at the log level of its options. It ends as these
  -- calls do, a `PlanoError` being made a `SystemExit`, and the threshold is then the one before them.
  pub main_application-selected :
      (depth : ℕ) (vars : Variables) (file module_name : Option Text) (t u : Text)
      (ts before after : List Text) (preceding : List Command) (command : Command)
      (parsed : ParsedArgs) (w w₁ w₂ : World)
      → let names = join_texts (str ",") (t ∷ u ∷ ts) in
        let args = before ++ names ∷ after in
        let pre : PreArgs = record {
          file = file;
          module_name = module_name;
          command = some names;
        } in
        let bound = bind_commands vars [] in
        IsUncut t
        → All IsUncut (u ∷ ts)
        → contains before names ≡ false
        → map (λ name. last_named name vars) (but_last (t ∷ u ∷ ts)) ≡ map some preceding
        → last_named (last_or u ts) vars ≡ some command
        → parser.parse_pre (pre_arguments upper true) args w ≡ (ok pre, w₁)
        → parser.parse_known
            (shared_arguments upper true)
            (subparsers vars)
            (before ++ last_or u ts ∷ after)
            w₁
          ≡ (ok parsed, w₂)
        → parsed.main_args.init_only ≡ false
        → parsed.namespace.help ≡ false
        → parsed.namespace.command ≡ some (last_or u ts)
        → (not command.passthrough
            && is_nonempty parser.parser_error bound depth parsed.passthrough_args)
          ≡ false
        → w₂.threshold < 6
        → let inside = (enter_logging (main_level parsed.main_args) no_output w₂).1 in
          let (r, w') =
            main_application parser text_of upper repr_text texts exec_module import_module depth
              (over_module vars)
              args
              w in
          (r
            ≡ ending text_of parsed.main_args
                (call_all parser depth bound preceding parsed.namespace parsed.passthrough_args
                  command inside).0)
          × (w'.threshold ≡ w₂.threshold)
  unfolding main_application main_parsed
  main_application-selected depth vars file module_name t u ts before after preceding command parsed
        w w₁ w₂ cut cuts first found last h k only help named known valid =
      let bound = bind_commands vars [] in
      let names = join_texts (str ",") (t ∷ u ∷ ts) in
      let args = before ++ names ∷ after in
      let joined =
        preceding_commands-joined parser.parser_error bound t u ts before after preceding w₁ cut
          cuts (map-lookup (but_last (t ∷ u ∷ ts)) vars ∙ found) first in
      let pre : PreArgs = record { file = file; module_name = module_name; command = some names } in
      let parse =
        parse_args_lem vars pre args (before ++ last_or u ts ∷ after) preceding parsed w w₁ w₂ h
          joined k in
      let inside = (enter_logging (main_level parsed.main_args) no_output w₂).1 in
      let ends =
        main-ends text_of parsed.main_args
          (init parser.parser_error bound depth parsed.namespace preceding parsed.passthrough_args)
          (run parser.parser_error bound depth parser.print_help parsed.namespace true) w₂ valid in
      let called =
        init_and_run-selected parser depth bound parsed.main_args parsed.namespace preceding
          parsed.passthrough_args (last_or u ts) command inside only help named
          (lookup-bind_commands (last_or u ts) vars ∙ last) known in
      rw parse (
        ends.1 ∙ ap (λ (q : Result (Unit {0}) × World). ending text_of parsed.main_args q.0) called,
        ends.2,
      )
