-- ===== src/TestRunner/Expectations.antt =====
-- `expect_exception` and its subclasses, of subrepos/plano/src/plano/test.py. The text of an
-- exception, `str(e)`, is the parameter `text_of`.
use bsord.Base.{
  ◌≡◌, ◌↔◌, refl, Bool, true, false, ◌&&◌, ◌||◌, Option, none, some, [], ◌∷◌, Text, str, arith,
  if◌then◌else◌, ◌++◌, and-true, sym, ap, inl, inr, Bool-cases, drop, length,
}
use mathlib.Core.Path.{subst}
use bsord.World.{
  World, Call, Result, ok, err, Exception, message, shown, is_plano_error, is_plano_timeout,
  is_exception,
}
use bsord.Strings.{starts_with}
use bsord.Strings.Affixes.{starts_with-append, starts_with_sound}

-- `part in text`
unfoldable pub occurs_in : Text → Text → Bool
unfolding starts_with
occurs_in part [] = starts_with [] part
occurs_in part (c ∷ text) = starts_with (c ∷ text) part || occurs_in part text

-- A text is made of the part and what is before and after it; no part asks for nothing.
abbrev pub Mentions : Option Text → Text → Type 0
Mentions none text = Unit
Mentions (some part) text = (before : Text) × (after : Text) × (text ≡ before ++ (part ++ after))

occurs_here : (part text : Text) → starts_with text part ≡ true → occurs_in part text ≡ true
unfolding occurs_in
occurs_here part [] h = h
occurs_here part (c ∷ text) h = rw h refl

occurs_after : (part before after : Text) → occurs_in part (before ++ (part ++ after)) ≡ true
unfolding occurs_in
occurs_after part [] after = occurs_here part (part ++ after) (starts_with-append part after)
occurs_after part (c ∷ before) after = ground (arith, occurs_after part before after)

found_in : (part text : Text) → occurs_in part text ≡ true → Mentions (some part) text
unfolding occurs_in
found_in part [] h = ([], drop (length part) [], sym (starts_with_sound [] part h))
found_in part (c ∷ text) h = elim (Bool-cases (starts_with (c ∷ text) part)) [
  | inl here ↦ ([], drop (length part) (c ∷ text), sym (starts_with_sound (c ∷ text) part here))
  | inr further ↦
      let (before, after, e) = found_in part text (ground arith) in
      (c ∷ before, after, ap (λ t. c ∷ t) e)
]

occurs_in_iff : (part text : Text) → (occurs_in part text ≡ true) ↔ Mentions (some part) text
occurs_in_iff part text = (
  found_in part text,
  λ (before, after, e).
      subst (λ t. occurs_in part t ≡ true) (sym e) (occurs_after part before after),
)

err-injective : {e x : Exception} → ◌≡◌ {A = Result (Unit {0})} (err e) (err x) → e ≡ x
err-injective e = cc

true_and : {a b : Bool} → a ≡ true → b ≡ true → (a && b) ≡ true
true_and h k = ground arith

-- The exception types that blocks expect.
pub data ExpectedType : Type 0 where
  any_exception an_error a_timeout an_exit : ExpectedType

-- `exception_type.__name__`
abbrev pub type_name : ExpectedType → Text
type_name any_exception = str "Exception"
type_name an_error = str "PlanoError"
type_name a_timeout = str "PlanoTimeout"
type_name an_exit = str "SystemExit"

-- `isinstance(e, SystemExit)`
abbrev pub is_system_exit : Exception → Bool
is_system_exit (Exception.system_exit code) = true
is_system_exit _ = false

-- `isinstance(e, exception_type)`
abbrev pub is_instance : ExpectedType → Exception → Bool
is_instance any_exception = is_exception
is_instance an_error = is_plano_error
is_instance a_timeout = is_plano_timeout
is_instance an_exit = is_system_exit

module _ (text_of : Exception → Text) where
  -- Whether `__exit__` suppresses the exception.
  unfoldable pub is_expected : ExpectedType → Option Text → Exception → Bool
  unfolding occurs_in
  is_expected type none e = is_instance type e
  is_expected type (some part) e = is_instance type e && occurs_in part (text_of e)

  -- What becomes of the body's result at the end of the block.
  unfoldable pub exit_expected : ExpectedType → Option Text → Result (Unit {0}) → Result (Unit {0})
  unfolding is_expected
  exit_expected type part (ok done) = err (
      Exception.assertion_error
        (message (str "Never encountered expected exception {}") (shown (type_name type) ∷ [])))
  exit_expected type part (err e) = if is_expected type part e then ok tt else err e

  -- `with expect_exception(exception_type, contains): body`
  unfoldable pub with_expected : ExpectedType → Option Text → Call (Unit {0}) → Call (Unit {0})
  unfolding exit_expected
  with_expected type part body w = let (r, w') = body w in (exit_expected type part r, w')

  -- `with expect_error(contains): body`
  unfoldable pub with_expected_error : Option Text → Call (Unit {0}) → Call (Unit {0})
  unfolding with_expected
  with_expected_error = with_expected an_error

  -- `with expect_timeout(contains): body`
  unfoldable pub with_expected_timeout : Option Text → Call (Unit {0}) → Call (Unit {0})
  unfolding with_expected
  with_expected_timeout = with_expected a_timeout

  -- `with expect_system_exit(contains): body`
  unfoldable pub with_expected_exit : Option Text → Call (Unit {0}) → Call (Unit {0})
  unfolding with_expected
  with_expected_exit = with_expected an_exit

  is_expected_iff :
      (type : ExpectedType) (part : Option Text) (e : Exception)
      → (is_expected type part e ≡ true) ↔ ((is_instance type e ≡ true) × Mentions part (text_of e))
  unfolding is_expected
  is_expected_iff type none e = (λ h. (h, tt), λ (h, k). h)
  is_expected_iff type (some part) e =
      let (found, occurs) = occurs_in_iff part (text_of e) in
      (
        λ h. let (instance_of, k) = and-true (is_instance type e) _ h in (instance_of, found k),
        λ (h, k). true_and h (occurs k),
      )

  not_expected :
      (type : ExpectedType) (part : Option Text) (r : Result (Unit {0}))
      → (exit_expected type part r ≡ ok tt)
        ↔ ((e : Exception) × (r ≡ err e) × (is_instance type e ≡ true) × Mentions part (text_of e))
  unfolding exit_expected
  not_expected type part (ok done) = (λ h. cc, λ (e, h, i, m). cc)
  not_expected type part (err e) =
      let (mentions, expected) = is_expected_iff type part e in
      (
        λ h. let (i, m) = mentions (ground arith) in (e, refl, i, m),
        λ (x, h, i, m).
            let same : e ≡ x = err-injective h in
            rw
              (expected (
                subst (λ y. (is_instance type y ≡ true) × Mentions part (text_of y)) (sym same)
                  (i, m)))
              refl,
      )

  -- The block returns exactly when its body raises an exception of the class whose text has the
  -- given one, if one is given, somewhere in it; a body that returns, or raises another exception, makes the
  -- block raise.
  pub with_expected_iff :
      (type : ExpectedType) (part : Option Text) (body : Call (Unit {0})) (w : World)
      → ((with_expected type part body w).0 ≡ ok tt) ↔ (
          (e : Exception) × ((body w).0 ≡ err e)
          × (is_instance type e ≡ true)
          × Mentions part (text_of e))
  unfolding with_expected
  with_expected_iff type part body w = not_expected type part (body w).0
