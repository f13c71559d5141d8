-- ===== src/Strings/Affixes.antt =====
-- `remove_prefix` and `remove_suffix` of subrepos/plano/src/plano/main.py.
use bsord.Base.{◌≡◌, ◌==◌, false, refl, sym, ◌∙◌, ap, ◌-◌, ◌++◌, true, some, [], ◌∷◌, Text, arith}
use bsord.Base.{◌⊎◌, inl, inr, text_eq, length, take, drop, Bool-cases, length-append, eq_refl}
use bsord.Base.{drop-length_append, take-length_append, take-append-drop}
use bsord.Base.{eq-true, ◌≢◌, and-true}
use bsord.Base.{ℕ}
use mathlib.Core.List.{append-nil}
use bsord.Strings.{starts_with, ends_with, remove_prefix, remove_suffix}

pub starts_with-append : (prefix string : Text) → starts_with (prefix ++ string) prefix ≡ true
unfolding starts_with
starts_with-append prefix string = rw take-length_append (eq_refl prefix)

pub starts_with_sound :
    (string prefix : Text)
    → starts_with string prefix ≡ true
    → prefix ++ drop (length prefix) string ≡ string
unfolding starts_with
starts_with_sound string prefix h =
    ap (λ s. s ++ drop (length prefix) string)
      (sym (eq-true (take (length prefix) string) prefix h))
    ∙ take-append-drop (length prefix) string

-- Either the result is what follows the prefix in the text, or the text does not begin with the
-- prefix at all and is returned unchanged.
pub remove_prefix_cases :
    (string prefix : Text)
    → (prefix ++ remove_prefix (some string) prefix ≡ string)
      ⊎ ((remove_prefix (some string) prefix ≡ string) × ((rest : Text) → prefix ++ rest ≢ string))
unfolding remove_prefix
remove_prefix_cases string [] = inl refl
remove_prefix_cases string (c ∷ prefix) = elim (Bool-cases (starts_with string (c ∷ prefix))) [
  | inl yes_it_does ↦ inl (rw yes_it_does (starts_with_sound string (c ∷ prefix) yes_it_does))
  | inr it_does_not ↦ inr (
    rw it_does_not,
    λ rest e.
        cc (
          it_does_not,
          ap (λ s. starts_with s (c ∷ prefix)) e,
          starts_with-append (c ∷ prefix) rest,
        ),
  )
]

length-prefix : (string suffix : Text) → length (string ++ suffix) - length suffix ≡ length string
length-prefix string suffix = omega (arith, length-append {0} string suffix)

ends_with-append : (string suffix : Text) → ends_with (string ++ suffix) suffix ≡ true
unfolding ends_with
ends_with-append string suffix =
    rw (length-prefix, drop-length_append, eq_refl suffix)
      (ground (arith, length-append {0} string suffix))

ends_with_sound :
    (string suffix : Text)
    → ends_with string suffix ≡ true
    → take (length string - length suffix) string ++ suffix ≡ string
unfolding ends_with
ends_with_sound string suffix h =
    let n = length string - length suffix in
    ap (λ s. take n string ++ s) (sym (eq-true (drop n string) suffix (and-true _ _ h).1))
    ∙ take-append-drop n string

-- Either the result is what stands before the suffix in the text, or the text does not end with
-- the suffix at all and is returned unchanged.
pub remove_suffix_cases :
    (string suffix : Text)
    → (remove_suffix (some string) suffix ++ suffix ≡ string)
      ⊎ ((remove_suffix (some string) suffix ≡ string) × ((rest : Text) → rest ++ suffix ≢ string))
unfolding remove_suffix
remove_suffix_cases string [] = inl (append-nil string)
remove_suffix_cases string (c ∷ suffix) = elim (Bool-cases (ends_with string (c ∷ suffix))) [
  | inl yes_it_does ↦ inl (rw yes_it_does (ends_with_sound string (c ∷ suffix) yes_it_does))
  | inr it_does_not ↦ inr (
    rw it_does_not,
    λ rest e.
        cc (it_does_not, ap (λ s. ends_with s (c ∷ suffix)) e, ends_with-append rest (c ∷ suffix)),
  )
]

-- A text that ends with the suffix loses it.
pub remove_suffix-append :
    (string suffix : Text) (c : ℕ)
    → remove_suffix (some (string ++ c ∷ suffix)) (c ∷ suffix) ≡ string
unfolding remove_suffix
remove_suffix-append string suffix c =
    rw (ends_with-append string (c ∷ suffix), length-prefix, take-length_append) refl

-- Of a text that ends in as many characters as the suffix has, others are not removed.
pub remove_suffix-other :
    (string ending suffix : Text)
    → length ending ≡ length suffix
    → (ending == suffix) ≡ false
    → remove_suffix (some (string ++ ending)) suffix ≡ string ++ ending
unfolding remove_suffix ends_with
remove_suffix-other string ending suffix h e =
    let n : length (string ++ ending) - length suffix ≡ length string =
      omega (arith, length-append {0} string ending) in
    rw (n, drop-length_append, e) (ground arith)
