-- ===== src/Values/Ids.antt =====
-- What a unique id looks like, and the bytes that it stands for.
use Prim.Native.Nat.{◌/◌, ◌%◌}
use bsord.Base.{
  ℕ, ◌+◌, ◌-◌, ◌*◌, ◌≤◌, ◌<◌, ◌≡◌, refl, zero, suc, arith, List, [], ◌∷◌, Text, length, take,
  length-take, ltb, if◌then◌else◌, All, inl, inr, ◌⊎◌,
}
use mathlib.Core.Path.{ap₂}
use bsord.World.{World, ok, err, Exception, message}
use bsord.Values.{hexlify, hex_digit, get_unique_id}

abbrev Byte : ℕ → Type 0
Byte b = b < 256

-- The value of a hexadecimal digit.
abbrev pub digit_value : ℕ → ℕ
digit_value d = if ltb d 87 then d - b'0' else d - 87

-- The bytes that a text of hexadecimal digits stands for.
unfoldable pub unhexlify : Text → List ℕ
unhexlify [] = []
unhexlify (c ∷ []) = []
unhexlify (c ∷ d ∷ t) = (digit_value c * 16 + digit_value d) ∷ unhexlify t

length-hexlify : (bytes : List ℕ) → length (hexlify bytes) ≡ 2 * length bytes
unfolding hexlify
length-hexlify [] = omega arith
length-hexlify (b ∷ bytes) = omega (arith, length-hexlify bytes)

digit_value-hex_digit : (n : ℕ) → n < 16 → digit_value (hex_digit n) ≡ n
digit_value-hex_digit n h = ground arith

unhexlify-hexlify : (bytes : List ℕ) → All Byte bytes → unhexlify (hexlify bytes) ≡ bytes
unfolding hexlify unhexlify
unhexlify-hexlify [] h = refl
unhexlify-hexlify (b ∷ bytes) (hb, h) =
    let high = digit_value-hex_digit (b / 16) (omega arith) in
    let low = digit_value-hex_digit (b % 16) (omega arith) in
    ap₂ (λ c (t : List ℕ). c ∷ t) (omega (arith, high, low)) (unhexlify-hexlify bytes h)

take-All : (n : ℕ) (bytes : List ℕ) → All Byte bytes → All Byte (take n bytes)
take-All zero bytes h = tt
take-All (suc n) [] h = tt
take-All (suc n) (b ∷ bytes) (hb, h) = (hb, take-All n bytes h)

-- With the 16 bytes of a uuid, a unique id of 1 to 16 bytes is twice as long as it has bytes, and its
-- digits stand for the first of the uuid's bytes; any other number of bytes raises an
-- `AssertionError`.
pub get_unique_id-unhexlify :
    (uuid_bytes : List ℕ) (bytes : ℕ) (w : World)
    → length uuid_bytes ≡ 16
    → All Byte uuid_bytes
    → (1 ≤ bytes
        → bytes ≤ 16
        → (t : Text) × (get_unique_id uuid_bytes bytes w ≡ (ok t, w))
          × (length t ≡ 2 * bytes)
          × (unhexlify t ≡ take bytes uuid_bytes))
      × ((bytes ≡ 0) ⊎ (16 < bytes)
          → get_unique_id uuid_bytes bytes w ≡ (err (Exception.assertion_error (message [] [])), w))
unfolding get_unique_id
get_unique_id-unhexlify uuid_bytes bytes w sixteen small = (
  λ lo hi. (
    hexlify (take bytes uuid_bytes),
    ground arith,
    omega (arith, length-hexlify (take bytes uuid_bytes), length-take bytes uuid_bytes),
    unhexlify-hexlify (take bytes uuid_bytes) (take-All bytes uuid_bytes small),
  ),
  λ out. elim out [ inl e ↦ ground arith | inr e ↦ ground arith ],
)
