-- ===== src/Base/Int.antt =====
-- Python's signed integers, over the native naturals.
use Prim.Native.Nat.{ℕ, suc, ◌-◌}
use mathlib.Core.Bool.{Bool, false}
use mathlib.Core.List.{List}
use bsord.Base.Lists.{length, take}
use bsord.Base.Tests.{ltb}

-- `negsuc n` is -(n + 1).
pub data ℤ : Type 0 where
  pos : ℕ → ℤ
  negsuc : ℕ → ℤ

-- `n < z` for a length `n`.
abbrev pub ltb_int : ℕ → ℤ → Bool
ltb_int n (pos m) = ltb n m
ltb_int n (negsuc m) = false

-- `max(0, z - n)` for a length `n`.
abbrev pub sub_floor : ℤ → ℕ → ℕ
sub_floor (pos m) n = m - n
sub_floor (negsuc m) n = 0

-- `xs[0:z]`
abbrev pub slice_to {ℓ} : {A : Type ℓ} → List A → ℤ → List A
slice_to xs (pos n) = take n xs
slice_to xs (negsuc n) = take (length xs - suc n) xs
