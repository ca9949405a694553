-- ===== src/Bytes.antt =====
-- Byte strings: a `[]byte` or a `[32]byte` is a list of numbers below 256.
-- `binary.LittleEndian` of Go's library at every width, and the byte reversals of hash_compare.go
-- and scrypt.go.
use doge_lucky_mining.Common.{
  ℕ, zero, suc, ◌+◌, ◌*◌, ◌/◌, ◌%◌, ◌^◌, ◌<◌, ◌≡◌, refl, ap, arith, List, [], ◌∷◌, length, All,
}
use native.Mathlib.Nat.{pow-suc}

abbrev pub Bytes : Type 0
Bytes = List ℕ

abbrev pub IsByte : ℕ → Type 0
IsByte b = b < 256

-- A `[32]byte`.
abbrev pub IsHash : Bytes → Type 0
IsHash h = (length h ≡ 32) × All IsByte h

-- `PutUint16`, `PutUint32`, `PutUint64`: the low `k` bytes of `v`, lowest first.
unfoldable pub put_le : ℕ → ℕ → Bytes
put_le zero v = []
put_le (suc k) v = (v % 256) ∷ put_le k (v / 256)

-- `Uint16`, `Uint32`, `Uint64`.
unfoldable pub get_le : Bytes → ℕ
get_le [] = 0
get_le (b ∷ bs) = b + 256 * get_le bs

pub length-put_le : (k v : ℕ) → length (put_le k v) ≡ k
unfolding put_le
length-put_le zero v = refl
length-put_le (suc k) v = ap suc (length-put_le k (v / 256))

pub put_le-IsByte : (k v : ℕ) → All IsByte (put_le k v)
unfolding put_le
put_le-IsByte zero v = tt
put_le-IsByte (suc k) v = (omega arith, put_le-IsByte k (v / 256))

div_below : (v m : ℕ) → v < m * 256 → v / 256 < m
div_below v m h = omega arith

pub get_le-put_le : (k v : ℕ) → v < 256 ^ k → get_le (put_le k v) ≡ v
unfolding get_le put_le
get_le-put_le zero v h = omega arith
get_le-put_le (suc k) v h =
    omega (arith, get_le-put_le k (v / 256) (div_below v (256 ^ k) (omega (arith, pow-suc 256 k))))
