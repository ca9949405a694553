-- ===== src/HashCompare.antt =====
-- hash_compare.go, and the byte reversals of block.go and scrypt.go: comparison of a proof-of-work
-- hash with a target, and the display order of a hash, which is its bytes in reverse.
pub mod Order
pub mod Reverse
use doge_lucky_mining.Common.{
  ℕ, zero, suc, ◌+◌, ◌-◌, ◌*◌, ◌/◌, Bool, true, false, not, ◌||◌, Option, none, some, List, [], ◌∷◌,
  reverse, length, get_or, set, ltb, ◌==◌, if◌then◌else◌,
}
use doge_lucky_mining.Bytes.{Bytes}
use doge_lucky_mining.Hex
use doge_lucky_mining.Hex.{Text}

-- The rounds of the loop of `hashMeetsTargetLE` with `i` below the argument, from the highest down.
unfoldable pub compare_le : ℕ → Bytes → Bytes → Bool
compare_le zero hash target = true
compare_le (suc i) hash target =
    let rest = compare_le i hash target in
    if ltb (get_or hash i 0) (get_or target i 0)
    then true
    else if ltb (get_or target i 0) (get_or hash i 0)
    then false
    else rest

unfoldable pub hash_meets_target_le : Bytes → Bytes → Bool
hash_meets_target_le hash target =
    if not (length hash == 32) || not (length target == 32)
    then false
    else compare_le 32 hash target

-- The loop of `hashMeetsTargetFast`, from index 0 up, on the bytes that are left.
unfoldable pub compare_be : Bytes → Bytes → Bool
compare_be [] target = false
compare_be (h ∷ hash) [] = false
compare_be (h ∷ hash) (t ∷ target) =
    let rest = compare_be hash target in if ltb h t then true else if ltb t h then false else rest

unfoldable pub hash_meets_target_fast : Bytes → Bytes → Bool
hash_meets_target_fast hash target =
    if not (length hash == 32) || not (length target == 32) then false else compare_be hash target

-- `b[i], b[j] = b[j], b[i]`
abbrev pub swap : ℕ → ℕ → Bytes → Bytes
swap i j b = set (set b i (get_or b j 0)) j (get_or b i 0)

-- The first `k` rounds of the loop of `reverseBytesInPlace`.
unfoldable pub reverse_rounds : ℕ → Bytes → Bytes
reverse_rounds zero b = b
reverse_rounds (suc k) b = let b' = reverse_rounds k b in swap k (length b - 1 - k) b'

unfoldable pub reverse_bytes_in_place : Bytes → Bytes
reverse_bytes_in_place b = reverse_rounds (length b / 2) b

-- `result[i] = b[len(b)-1-i]` for the `k` indices from `i` on.
unfoldable pub reverse_bytes_from : ℕ → ℕ → Bytes → Bytes
reverse_bytes_from zero i b = []
reverse_bytes_from (suc k) i b = get_or b (length b - 1 - i) 0 ∷ reverse_bytes_from k (i + 1) b

-- `reverseBytes` of scrypt.go
unfoldable pub reverse_bytes : Bytes → Bytes
reverse_bytes b = reverse_bytes_from (length b) 0 b

unfoldable pub hash_to_display_hex : Bytes → Text
hash_to_display_hex h =
    if not (length h == 32) then Hex.encode h else Hex.encode (reverse_bytes_in_place h)

-- `hexTo32Bytes` of block.go; `none` is its error. Its loop of 16 rounds is that of
-- `reverseBytesInPlace` on 32 bytes.
unfoldable pub hex_to_32_bytes : Text → Option Bytes
hex_to_32_bytes s = elim (Hex.decode s) [
  | none ↦ none
  | some decoded ↦ if not (length decoded == 32) then none else some (reverse_rounds 16 decoded)
]
