-- ===== src/TestRunner/Outputs.antt =====
-- `expect_output` of subrepos/plano/src/plano/test.py: a temporary file whose contents are looked at when the
-- block ends. The parameters are those of `temp_file`.
use bsord.Base.{
  ◌≡◌, refl, ap, ◌∙◌, Bool, true, false, not, ◌&&◌, Option, none, some, [], Text, text_eq, ◌==◌,
  if◌then◌else◌,
}
use bsord.World.{
  World, Call, Result, ok, err, Exception, Message, message, assert, with_manager, bind_ok, resume,
  after_leave, after_enter, ◌>>=◌, ◌>>◌,
}
use bsord.Strings.{starts_with, ends_with}
use bsord.Files.Contents.{read}
use bsord.Files.Blocks.{make_temp_file, remove_temp}
use bsord.TestRunner.Expectations.{occurs_in}

-- The arguments of `expect_output`.
pub record ExpectedOutput : Type 0 where
  pub equals : Option Text
  pub contained : Option Text
  pub prefix : Option Text
  pub suffix : Option Text

abbrev holds_for : (Text → Bool) → Option Text → Bool
holds_for test none = true
holds_for test (some t) = test t

-- The first assertion: some text, or the text that is given.
abbrev is_equal : Text → Option Text → Bool
is_equal result none = not (result == [])
is_equal result (some t) = result == t

all_hold :
    (a b c d : Bool) (m : Message) (w : World)
    → (assert a m >> (assert b m >> (assert c m >> assert d m))) w
      ≡ (if a && (b && (c && d)) then ok tt else err (Exception.assertion_error m), w)
all_hold false b c d m w = refl
all_hold true false c d m w = refl
all_hold true true false d m w = refl
all_hold true true true false m w = refl
all_hold true true true true m w = refl

resume_if :
    (b : Bool) (e : Exception) (k : Call (Unit {0})) (w : World)
    → resume (λ _. k) (if b then ok tt else err e, w) ≡ (if b then k w else (err e, w))
resume_if true e k w = refl
resume_if false e k w = refl

left_by :
    {A : Type 0} (b : Bool) (r : Result A) (e : Exception) (w : World)
    {k : Result (Unit {0}) × World} {w' : World}
    → k ≡ (ok tt, w')
    → after_leave r (if b then k else (err e, w)) ≡ (if b then (r, w') else (err e, w))
left_by true r e w h = ap (after_leave r) h
left_by false r e w h = refl

module _ (expected : ExpectedOutput) where
  -- The assertions of `__exit__`, each with the text as its message.
  unfoldable pub check_output : Text → Call (Unit {0})
  unfolding occurs_in starts_with ends_with
  check_output result = do
    assert (is_equal result expected.equals) (message result [])
    assert (holds_for (λ t. occurs_in t result) expected.contained) (message result [])
    assert (holds_for (starts_with result) expected.prefix) (message result [])
    assert (holds_for (ends_with result) expected.suffix) (message result [])

  -- A text that all the assertions hold of.
  abbrev pub is_accepted : Text → Bool
  is_accepted result =
      is_equal result expected.equals
      && (holds_for (λ t. occurs_in t result) expected.contained
          && (holds_for (starts_with result) expected.prefix
              && holds_for (ends_with result) expected.suffix))

  check_output-accepted :
      (result : Text) (w : World)
      → check_output result w ≡ (
        if is_accepted result then ok tt else err (Exception.assertion_error (message result [])),
        w,
      )
  unfolding check_output
  check_output-accepted result w =
      all_hold (is_equal result expected.equals)
        (holds_for (λ t. occurs_in t result) expected.contained)
        (holds_for (starts_with result) expected.prefix)
        (holds_for (ends_with result) expected.suffix) (message result []) w

  module _ (system_temp_dir user : Text) (temp_name : World → Text → Text) where
    -- `expect_output.__exit__`
    unfoldable pub exit_output : Text → Call (Unit {0})
    unfolding read check_output remove_temp
    exit_output path = do
      result ← read path
      check_output result
      remove_temp system_temp_dir user temp_name path

    -- `with expect_output(equals, contains, startswith, endswith) as file: body`
    unfoldable pub with_expected_output : {A : Type 0} → (Text → Call A) → Call A
    unfolding make_temp_file exit_output
    with_expected_output body =
        with_manager (make_temp_file system_temp_dir user temp_name [] none) exit_output body

    exit_output-decides :
        (path result : Text) (w : World)
        → read path w ≡ (ok result, w)
        → exit_output path w ≡ (
            if is_accepted result
            then remove_temp system_temp_dir user temp_name path w
            else (err (Exception.assertion_error (message result [])), w))
    unfolding exit_output
    exit_output-decides path result w h =
        let remove : Call (Unit {0}) = remove_temp system_temp_dir user temp_name path in
        bind_ok (read path) (λ t. check_output t >> remove) w h
        ∙ ap (resume (λ _. remove)) (check_output-accepted result w)
        ∙ resume_if (is_accepted result) (Exception.assertion_error (message result [])) remove w

    -- If the temporary file can be made and read at the end, the block removes it and has the result of
    -- its body, whether that returned or raised, if the assertions hold of the text in the file;
    -- if one does not, the block raises an `AssertionError` with the text, in place of what its body raised,
    -- and the file stays.
    pub with_expected_output-decides :
        {A : Type 0} (body : Text → Call A) (path result : Text) (r : Result A) (w w₁ w₂ w₃ : World)
        → make_temp_file system_temp_dir user temp_name [] none w ≡ (ok path, w₁)
        → body path w₁ ≡ (r, w₂)
        → read path w₂ ≡ (ok result, w₂)
        → remove_temp system_temp_dir user temp_name path w₂ ≡ (ok tt, w₃)
        → with_expected_output body w ≡ (
            if is_accepted result
            then (r, w₃)
            else (err (Exception.assertion_error (message result [])), w₂))
    unfolding with_expected_output
    with_expected_output-decides body path result r w w₁ w₂ w₃ made ran text gone =
        let leave = exit_output in
        let decides = exit_output-decides path result w₂ text in
        ap (after_enter leave body) made
        ∙ ap (λ (q : Result _ × World). after_leave q.0 (leave path q.1)) ran
        ∙ ap (after_leave r) decides
        ∙ left_by (is_accepted result) r _ w₂ gone
