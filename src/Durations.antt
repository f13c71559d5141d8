-- ===== src/Durations.antt =====
-- `format_duration` of subrepos/plano/src/plano/main.py. A duration is a number of parts of a second
-- with the number of parts that a second has; its divisions are exact, and `{:.1f}` rounds to the
-- nearest, and halves to the even digit.
pub mod Rounding
use Prim.Native.Nat.{◌/◌, ◌%◌}
use bsord.Base.{
  ℕ, zero, suc, ◌+◌, ◌*◌, Bool, some, List, [], ◌∷◌, ◌++◌, Text, str, eqb, ltb, leb, if◌then◌else◌,
}
use bsord.Base.Int.{ℤ, pos, negsuc}
use bsord.World.{Result, ok, err, Exception, message}
use bsord.Strings.{remove_suffix}

-- n / d, rounded.
unfoldable pub rounded : ℕ → ℕ → ℕ
rounded n d =
    let q = n / d in
    let r = n % d in
    if ltb (2 * r) d then q else if ltb d (2 * r) then q + 1 else if eqb (q % 2) 0 then q else q + 1

-- The decimal digits of a number, with more rounds than it has digits.
unfoldable pub digits : ℕ → ℕ → Text
digits zero n = []
digits (suc rounds) n =
    let front = digits rounds (n / 10) in
    let last = (b'0' + n % 10) ∷ [] in if ltb n 10 then last else front ++ last

-- `str(n)`
unfoldable pub decimal : ℕ → Text
unfolding digits
decimal n = digits (suc n) n

-- `"{:.1f}".format(n / d)`
unfoldable pub one_decimal : ℕ → ℕ → Text
unfolding rounded decimal
one_decimal n d =
    let tenths = rounded (10 * n) d in decimal (tenths / 10) ++ (b'.' ∷ decimal (tenths % 10))

-- A number of `per` parts, and the unit that it counts.
pub record Quantity : Type 0 where
  pub count : ℕ
  pub per : ℕ
  pub unit : Text

-- The value and the unit that a duration is shown in.
unfoldable pub quantity : ℕ → ℕ → Quantity
quantity n d =
    if leb (3600 * d) n
    then record { count = n; per = 3600 * d; unit = str "h" }
    else if leb (300 * d) n
    then record { count = n; per = 60 * d; unit = str "m" }
    else record { count = n; per = d; unit = str "s" }

-- The value as a text.
unfoldable pub format_value : Bool → Quantity → Text
unfolding one_decimal rounded decimal
format_value align q =
    if align
    then one_decimal q.count q.per
    else if ltb (10 * q.per) q.count
    then decimal (rounded q.count q.per)
    else remove_suffix (some (one_decimal q.count q.per)) (str ".0")

-- `format_duration`
unfoldable pub format_duration : Bool → ℤ → ℕ → Result Text
unfolding quantity format_value
format_duration align (pos n) d = let q = quantity n d in ok (format_value align q ++ q.unit)
format_duration align (negsuc n) d = err (Exception.assertion_error (message [] []))
