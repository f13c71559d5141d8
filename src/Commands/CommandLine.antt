-- ===== src/Commands/CommandLine.antt =====
-- The commands and the arguments that `PlanoCommand` of subrepos/plano/src/plano/command.py takes
-- from the command line.
use bsord.Base.{
  ◌≡◌, refl, true, false, some, List, [], ◌∷◌, ◌++◌, Text, text_eq, nat_eq, arith, str, contains,
  All, map,
}
use mathlib.Core.List.{head-eq_of_cons-eq, tail-eq_of_cons-eq}
use bsord.Base.Dict
use bsord.Base.Dict.{Dict}
use bsord.World.{World, Call, ok, Message}
use bsord.Base.{join_texts, Lacks, split_on-join}
use bsord.Commands.{
  Command, split_commas, but_last, last_or, replace_first, find_commands, preceding_commands,
}

-- A name that the split does not cut.
abbrev pub IsUncut : Text → Type 0
IsUncut = Lacks b','

-- Splitting at the commas gives back the names that were joined by them.
split_commas-join :
    (t : Text) (ts : List Text)
    → IsUncut t
    → All IsUncut ts
    → split_commas (join_texts (str ",") (t ∷ ts)) ≡ t ∷ ts
unfolding split_commas
split_commas-join = split_on-join b','

contains-append : (t rest : Text) → contains (t ++ b',' ∷ rest) b',' ≡ true
unfolding nat_eq
contains-append [] rest = refl
contains-append (c ∷ t) rest = ground (arith, contains-append t rest)

contains_comma :
    (t u : Text) (ts : List Text) → contains (join_texts (str ",") (t ∷ u ∷ ts)) b',' ≡ true
unfolding join_texts
contains_comma t u ts = contains-append t (join_texts (str ",") (u ∷ ts))

replace_first-append :
    (old new : Text) (before after : List Text)
    → contains before old ≡ false
    → replace_first old new (before ++ old ∷ after) ≡ some (before ++ new ∷ after)
unfolding replace_first
replace_first-append old new [] after h = ground arith
replace_first-append old new (t ∷ before) after h =
    ground (arith, replace_first-append old new before after)

find_commands_lem :
    (parser_error : Message → Call (Unit {0})) (bound : Dict Text Command) (names : List Text)
    (commands : List Command) (w : World)
    → map (λ name. Dict.lookup name bound) names ≡ map some commands
    → find_commands parser_error bound names w ≡ (ok commands, w)
unfolding find_commands
find_commands_lem parser_error bound [] [] w h = refl
find_commands_lem parser_error bound [] (c ∷ cs) w h = cc
find_commands_lem parser_error bound (n ∷ ns) [] w h = cc
find_commands_lem parser_error bound (n ∷ ns) (c ∷ cs) w h =
    let rest = find_commands_lem parser_error bound ns cs w (tail-eq_of_cons-eq h) in
    let first = head-eq_of_cons-eq h in ground (arith, rest, first)

-- Several names joined by commas, none of which has a comma in it and all but the last of which
-- are bound, select the commands bound to all but the last, in order; the last takes the place of
-- them where they stand first among the arguments, and nothing else changes.
pub preceding_commands-joined :
    (parser_error : Message → Call (Unit {0})) (bound : Dict Text Command) (t u : Text)
    (ts before after : List Text) (commands : List Command) (w : World)
    → IsUncut t
    → All IsUncut (u ∷ ts)
    → map (λ name. Dict.lookup name bound) (but_last (t ∷ u ∷ ts)) ≡ map some commands
    → let command = join_texts (str ",") (t ∷ u ∷ ts) in
      contains before command ≡ false
      → preceding_commands parser_error bound (some command) (before ++ command ∷ after) w
        ≡ (ok (commands, before ++ last_or u ts ∷ after), w)
unfolding preceding_commands
preceding_commands-joined parser_error bound t u ts before after commands w h hs found first =
    let command = join_texts (str ",") (t ∷ u ∷ ts) in
    let has_comma = contains_comma t u ts in
    let names = split_commas-join t (u ∷ ts) h hs in
    let replaced = replace_first-append command (last_or u ts) before after first in
    let looked_up = find_commands_lem parser_error bound (but_last (t ∷ u ∷ ts)) commands w found in
    ground (arith, has_comma, names, replaced, looked_up)
