-- ===== src/Compact.antt =====
-- template_builder.go and pow_dogecoin.go: the compact form of a target (`nBits`).
-- A `*big.Int` that the code passes is never nil and never negative, so it is a number. `x >> s` is
-- `x / 2 ^ s` and `x << s` is `x * 2 ^ s`.
pub mod Digits
pub mod RoundTrip
pub mod Canonical
use doge_lucky_mining.Common.{
  ℕ, zero, suc, ◌+◌, ◌-◌, ◌*◌, ◌/◌, ◌%◌, ◌^◌, Bool, ltb, leb, ◌==◌, if◌then◌else◌, List, [], ◌∷◌,
  ◌++◌, length, drop, reverse, replicate,
}
use doge_lucky_mining.Bytes.{Bytes}
use doge_lucky_mining.Hex
use doge_lucky_mining.Hex.{Text}

abbrev pub doge_pow_limit_compact : ℕ
doge_pow_limit_compact = 0x1e0ffff0

-- `dogecoinPowLimitUint256`: 00000fff…fff, 236 ones.
abbrev pub doge_pow_limit_uint256 : ℕ
doge_pow_limit_uint256 = 2 ^ 236 - 1

-- `BitsToTarget`
unfoldable pub bits_to_target : ℕ → ℕ
bits_to_target bits =
    let size = bits / 2 ^ 24 in
    let word = bits % 2 ^ 24 in
    if leb size 3 then word / 2 ^ (8 * (3 - size)) else word * 2 ^ (8 * (size - 3))

-- The bytes of a number, lowest first, with no zero at the end. The fuel is at least the number.
unfoldable pub le_digits : ℕ → ℕ → Bytes
le_digits zero n = []
le_digits (suc fuel) zero = []
le_digits (suc fuel) (suc n) = (suc n % 256) ∷ le_digits fuel (suc n / 256)

-- `big.Int.Bytes`: highest first.
unfoldable pub bytes_be : ℕ → Bytes
unfolding le_digits
bytes_be n = reverse (le_digits n n)

-- `len(n.Bytes())`
unfoldable pub byte_length : ℕ → ℕ
unfolding le_digits
byte_length n = length (le_digits n n)

-- The low 23 bits of the mantissa under the exponent, after the mantissa's sign bit was cleared.
abbrev pack : ℕ → ℕ → ℕ
pack exponent mantissa = (exponent * 2 ^ 24 + mantissa % 2 ^ 23) % 2 ^ 32

-- `BigToCompact`. `uint32(m.Uint64())` keeps the low 32 bits; the sum of the two disjoint bit fields
-- is their `|`.
unfoldable pub big_to_compact : ℕ → ℕ
big_to_compact n =
    let exponent = byte_length n in
    let compact = n / 2 ^ (8 * (exponent - 3)) % 2 ^ 32 in
    if n == 0
    then 0
    else if leb exponent 3
    then n * 2 ^ (8 * (3 - exponent)) % 2 ^ 32
    else if compact / 2 ^ 23 % 2 == 1
    then pack (exponent + 1) (compact / 2 ^ 8)
    else pack exponent compact

-- `BitsToTargetHex`: the last 32 bytes, or zeros in front.
unfoldable pub bits_to_target_hex : ℕ → Text
bits_to_target_hex bits =
    let b = bytes_be (bits_to_target bits) in
    let b' = if ltb 32 (length b) then drop (length b - 32) b else b in
    Hex.encode (replicate (32 - length b') 0 ++ b')
