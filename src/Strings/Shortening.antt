-- ===== src/Strings/Shortening.antt =====
-- `shorten` of subrepos/plano/src/plano/main.py.
use bsord.Base.{
  ℕ, zero, suc, ◌≡◌, refl, ◌-◌, ◌≤◌, ◌<◌, ◌++◌, min, max, some, none, Text, arith, [], ◌∷◌,
}
use bsord.Base.{length, take, length-append, length-take, ap}
use bsord.Base.Int.{pos}
use bsord.Strings.{shorten}

take-append_left : (n : ℕ) (xs ys : Text) → n ≤ length xs → take n (xs ++ ys) ≡ take n xs
take-append_left zero xs ys h = refl
take-append_left (suc n) [] ys h = absurd (omega arith)
take-append_left (suc n) (x ∷ xs) ys h = ap (λ zs. x ∷ zs) (take-append_left n xs ys (omega arith))

take_all : (n : ℕ) (xs : Text) → length xs ≤ n → take n xs ≡ xs
take_all zero [] h = refl
take_all zero (x ∷ xs) h = absurd (omega arith)
take_all (suc n) [] h = refl
take_all (suc n) (x ∷ xs) h = ap (λ zs. x ∷ zs) (take_all n xs (omega arith))

-- Without an ellipsis, the result for a maximum of `n` is the first `n` characters, and has the
-- smaller of `n` and the text's length.
pub shorten_plain :
    (string : Text) (n : ℕ)
    → (shorten (some string) (some (pos n)) none ≡ take n string)
      × (length (shorten (some string) (some (pos n)) none) ≡ min n (length string))
unfolding shorten
shorten_plain string n = ground (arith, take_all n string, length-take {0} n string)

-- With an ellipsis, a text shorter than the maximum `n` is returned whole, and any other is cut
-- and followed by the ellipsis, in all as long as the larger of `n` and the ellipsis.
pub shorten_ellipsis :
    (string ellipsis : Text) (n : ℕ)
    → (length string < n → shorten (some string) (some (pos n)) (some ellipsis) ≡ string)
      × (n ≤ length string
          → (shorten (some string) (some (pos n)) (some ellipsis)
              ≡ take (n - length ellipsis) string ++ ellipsis)
            × (length (shorten (some string) (some (pos n)) (some ellipsis))
                ≡ max n (length ellipsis)))
unfolding shorten
shorten_ellipsis string ellipsis n = ground (
  arith,
  take-append_left (n - length ellipsis) string ellipsis,
  length-append {0} (take (n - length ellipsis) string) ellipsis,
  length-take {0} (n - length ellipsis) string,
)
