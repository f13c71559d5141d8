-- ===== src/Durations/Rounding.antt =====
-- How close the number that `format_duration` writes is to the duration.
use bsord.Base.{
  ℕ, ◌+◌, ◌-◌, ◌*◌, ◌≤◌, ◌<◌, ◌≡◌, Bool, ◌||◌, [], ◌∷◌, ◌⊎◌, Text, str, eqb, leb, if◌then◌else◌,
}
use bsord.Durations.{rounded, Quantity}

abbrev pub read_fraction : ℕ → Text → ℕ
read_fraction whole [] = 10 * whole
read_fraction whole (c ∷ t) = 10 * whole + (c - b'0')

-- A decimal number with one digit behind the point at most, in tenths, behind the digits of another.
abbrev pub read_tenths : ℕ → Text → ℕ
read_tenths whole [] = 10 * whole
read_tenths whole (c ∷ t) =
    if eqb c b'.' then read_fraction whole t else read_tenths (10 * whole + (c - b'0')) t

-- Half a part more or less.
abbrev pub Near : ℕ → ℕ → ℕ → Type 0
Near k n d = (2 * (k * d) ≤ 2 * n + d) × (2 * n ≤ 2 * (k * d) + d)

module _ (n d : ℕ) where
  abbrev tenths_of : ℕ
  tenths_of = rounded (10 * n) d

  abbrev second : Text → ℕ
  second (a ∷ b ∷ t) = b
  second _ = 0

-- A number of tenths that is within `slack` tenths, or rather twentieths, of a value.
abbrev pub Within : ℕ → Quantity → ℕ → Type 0
Within k q slack =
    (2 * (k * q.per) ≤ 20 * q.count + slack * q.per)
    × (20 * q.count ≤ 2 * (k * q.per) + slack * q.per)

-- Whether the value is written with a digit behind the point.
abbrev pub is_fine : Bool → Quantity → Bool
is_fine align q = align || leb q.count (10 * q.per)

-- The unit of a quantity of `n` of `d` parts of a second.
abbrev pub IsScaled : ℕ → ℕ → Quantity → Type 0
IsScaled n d q =
    (q.count ≡ n)
    × (((q.unit ≡ str "h") × (q.per ≡ 3600 * d) × (3600 * d ≤ n))
        ⊎ ((q.unit ≡ str "m") × (q.per ≡ 60 * d) × (300 * d ≤ n) × (n < 3600 * d))
        ⊎ ((q.unit ≡ str "s") × (q.per ≡ d) × (n < 300 * d)))
