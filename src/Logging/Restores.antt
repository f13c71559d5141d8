-- ===== src/Logging/Restores.antt =====
-- What a `with logging_enabled` block leaves behind.
use mathlib.Core.Option.{some-injective}
use mathlib.Core.Path.{subst}
use bsord.Base.{
  ℕ, zero, suc, Bool, ◌||◌, ◌≡◌, ◌≢◌, ◌<◌, refl, true, false, str, inl, inr, Bool-cases, Option,
  none, some, Text, text_eq, contains, get_elem?, arith, List, [], ◌∷◌, ◌==◌,
}
use bsord.World.{World, Call, Sink, file, Result, ok, err, Exception, message}
use bsord.Logging.{
  OutputArg, no_output, path, opened_stream, logging_levels, enter_logging, exit_logging,
  with_logging, index_of, enable_logging, disable_logging, switch_logging, saved_output,
}

abbrev sink_of : OutputArg → Option Sink
sink_of no_output = none
sink_of (opened_stream s) = some s
sink_of (path p) = some (file p)

-- What the output needs can be opened.
abbrev pub opens : World → OutputArg → Bool
opens w no_output = true
opens w (opened_stream s) = true
opens w (path p) = w.can_open p

index_of-contains :
    (levels : List Text) (level : Text)
    → contains levels level ≡ true
    → (i : ℕ) × (index_of levels level ≡ some i)
unfolding index_of
index_of-contains [] level h = cc
index_of-contains (l ∷ levels) level h = elim (Bool-cases (l == level)) [
  | inl found ↦ (0, rw found)
  | inr more ↦ let (i, e) = index_of-contains levels level (ground arith) in (suc i, rw (more, e))
]

enable_logging_lem :
    (level : Text) (output : OutputArg) (w : World) (i : ℕ)
    → contains logging_levels level ≡ true
    → index_of logging_levels level ≡ some i
    → opens w output ≡ true
    → let (r, w') = enable_logging level output w in
      (r ≡ ok tt) × (w'.threshold ≡ i) × (w'.log_output ≡ sink_of output)
unfolding enable_logging
enable_logging_lem level no_output w i known found opened = ground arith
enable_logging_lem level (path p) w i known found opened = ground arith
enable_logging_lem level (opened_stream s) w i known found opened = ground arith

disable_logging_lem :
    (w : World)
    → let (r, w') = disable_logging w in
      (r ≡ ok tt) × (w'.threshold ≡ 5) × (w'.log_output ≡ w.log_output)
unfolding disable_logging
disable_logging_lem w = ground arith

-- Leaving the block with what was saved at threshold `t`.
abbrev Restored : ℕ → Option Sink → Result (Unit {0}) × World → Type 0
Restored t s (r, w) = (r ≡ ok tt) × (w.threshold ≡ t) × (t ≢ 5 → w.log_output ≡ s)

sink_of-saved_output : (s : Option Sink) → sink_of (saved_output s) ≡ s
sink_of-saved_output none = refl
sink_of-saved_output (some s) = refl

opens-saved_output : (w : World) (s : Option Sink) → opens w (saved_output s) ≡ true
opens-saved_output w none = refl
opens-saved_output w (some s) = refl

Restored-by_enabling :
    (t : ℕ) (s : Option Sink) (w : World) {level name : Text}
    → level ≡ name
    → (level == str "disabled") ≡ false
    → contains logging_levels level ≡ true
    → index_of logging_levels level ≡ some t
    → Restored t s (exit_logging (record { prev_level = name; prev_output = s }) w)
unfolding exit_logging
Restored-by_enabling t s w {level} same enabled known found =
    subst (λ n. Restored t s (exit_logging (record { prev_level = n; prev_output = s }) w)) same
      (ground (
        arith,
        enable_logging_lem level (saved_output s) w t,
        sink_of-saved_output s,
        opens-saved_output w s,
      ))

exit_logging-Restored :
    (t : ℕ) (s : Option Sink) (w : World) (name : Text)
    → get_elem? logging_levels t ≡ some name
    → Restored t s (exit_logging (record { prev_level = name; prev_output = s }) w)
unfolding exit_logging text_eq index_of
exit_logging-Restored zero s w name e =
    Restored-by_enabling 0 s w (some-injective _ _ e) refl refl refl
exit_logging-Restored (suc zero) s w name e =
    Restored-by_enabling 1 s w (some-injective _ _ e) refl refl refl
exit_logging-Restored (suc (suc zero)) s w name e =
    Restored-by_enabling 2 s w (some-injective _ _ e) refl refl refl
exit_logging-Restored (suc (suc (suc zero))) s w name e =
    Restored-by_enabling 3 s w (some-injective _ _ e) refl refl refl
exit_logging-Restored (suc (suc (suc (suc zero)))) s w name e =
    Restored-by_enabling 4 s w (some-injective _ _ e) refl refl refl
exit_logging-Restored (suc (suc (suc (suc (suc zero))))) s w name e =
    subst (λ n. Restored 5 s (exit_logging (record { prev_level = n; prev_output = s }) w))
      (some-injective _ _ e) (ground (arith, disable_logging_lem w))
exit_logging-Restored (suc (suc (suc (suc (suc (suc t)))))) s w name e = cc

threshold_valid : (t : ℕ) → t < 6 → (name : Text) × (get_elem? logging_levels t ≡ some name)
threshold_valid zero h = (str "debug", refl)
threshold_valid (suc zero) h = (str "info", refl)
threshold_valid (suc (suc zero)) h = (str "notice", refl)
threshold_valid (suc (suc (suc zero))) h = (str "warn", refl)
threshold_valid (suc (suc (suc (suc zero)))) h = (str "error", refl)
threshold_valid (suc (suc (suc (suc (suc zero))))) h = (str "disabled", refl)
threshold_valid (suc (suc (suc (suc (suc (suc t)))))) h = absurd (omega arith)

switch_logging_lem :
    (level : Text) (output : OutputArg) (w : World)
    → contains logging_levels level ≡ true
    → (level == str "disabled" || opens w output) ≡ true
    → (switch_logging level output w).0 ≡ ok tt
unfolding switch_logging
switch_logging_lem level output w known opened =
    let (i, found) = index_of-contains logging_levels level known in
    ground (arith, enable_logging_lem level output w i known found, disable_logging_lem w)

enter_logging_lem :
    (level : Text) (output : OutputArg) (w : World) (name : Text)
    → contains logging_levels level ≡ true
    → get_elem? logging_levels w.threshold ≡ some name
    → (level == str "disabled" || opens w output) ≡ true
    → (enter_logging level output w).0
      ≡ ok (record { prev_level = name; prev_output = w.log_output })
unfolding enter_logging
enter_logging_lem level output w name known at_threshold opened =
    ground (arith, switch_logging_lem level output w known)

pub enter_logging-threshold :
    (level : Text) (output : OutputArg) (w : World) (i : ℕ)
    → contains logging_levels level ≡ true
    → index_of logging_levels level ≡ some i
    → (level == str "disabled") ≡ false
    → w.threshold < 6
    → opens w output ≡ true
    → (enter_logging level output w).1.threshold ≡ i
unfolding enter_logging switch_logging
enter_logging-threshold level output w i known found enabled valid opened =
    let (name, at_threshold) = threshold_valid w.threshold valid in
    ground (arith, enable_logging_lem level output w i known found)

-- For a valid level and at a valid threshold, and if the block sets no output or can open it, its body runs and its result or exception is
-- passed on, whatever it does; afterwards the threshold is as it was before, and so is the output,
-- unless logging was disabled before.
pub with_logging-restores :
    {A : Type 0} (level : Text) (output : OutputArg) (body : Call A) (w : World)
    → contains logging_levels level ≡ true
    → w.threshold < 6
    → (level == str "disabled" || opens w output) ≡ true
    → let (r, w') = with_logging level output body w in
      (r ≡ (body (enter_logging level output w).1).0)
      × (w'.threshold ≡ w.threshold)
      × (w.threshold ≢ 5 → w'.log_output ≡ w.log_output)
unfolding with_logging
with_logging-restores level output body w known valid opened =
    let (name, at_threshold) = threshold_valid w.threshold valid in
    let inside = (enter_logging level output w).1 in
    let after = (body inside).1 in
    ground (
      arith,
      enter_logging_lem level output w name known at_threshold,
      exit_logging-Restored w.threshold w.log_output after name at_threshold,
    )

unknown_not_disabled :
    (level : Text) → contains logging_levels level ≡ false → (level == str "disabled") ≡ false
unknown_not_disabled level unknown = ground arith

-- An unknown level raises an `AssertionError`: the body does not run and nothing changes.
pub with_logging_unknown_level :
    {A : Type 0} (level : Text) (output : OutputArg) (body : Call A) (w : World)
    → contains logging_levels level ≡ false
    → w.threshold < 6
    → with_logging level output body w ≡ (err (Exception.assertion_error (message level [])), w)
unfolding with_logging
with_logging_unknown_level level target body w unknown valid =
    let (name, at_threshold) = threshold_valid w.threshold valid in
    ground (arith, unknown_not_disabled level unknown)

-- If a block at a known level other than "disabled" has an output that cannot be opened, it raises an
-- `OSError` and its body does not run; the threshold is that of the block from then on, and the
-- output is as it was.
pub with_logging_unopened :
    {A : Type 0} (level p : Text) (body : Call A) (w : World) (i : ℕ)
    → index_of logging_levels level ≡ some i
    → contains logging_levels level ≡ true
    → (level == str "disabled") ≡ false
    → w.threshold < 6
    → w.can_open p ≡ false
    → let (r, w') = with_logging level (path p) body w in
      (r ≡ err (Exception.os_error (str "OSError")))
      × (w'.threshold ≡ i)
      × (w'.log_output ≡ w.log_output)
unfolding with_logging enter_logging switch_logging enable_logging
with_logging_unopened level p body w i found known enabled valid closed =
    let (name, at_threshold) = threshold_valid w.threshold valid in ground arith

-- For a known level other than "disabled", and an output that is `None` or can be opened:
-- when logging was disabled before the block, leaving the block disables it again and keeps the
-- output that the block had, so a body that leaves the output alone leaks the block's own.
pub with_logging_leaks_output :
    {A : Type 0} (level : Text) (output : OutputArg) (body : Call A) (w : World)
    → contains logging_levels level ≡ true
    → (level == str "disabled") ≡ false
    → w.threshold ≡ 5
    → opens w output ≡ true
    → ((v : World) → (body v).1.log_output ≡ v.log_output)
    → (with_logging level output body w).1.log_output ≡ sink_of output
unfolding with_logging text_eq
with_logging_leaks_output level output body w known enabled disabled opened keeps =
    let (i, found) = index_of-contains logging_levels level known in
    let inside = (enter_logging level output w).1 in
    ground (
      arith,
      enable_logging_lem level output w i known found,
      keeps inside,
      disable_logging_lem (body inside).1,
    )
