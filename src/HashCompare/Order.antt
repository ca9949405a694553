-- ===== src/HashCompare/Order.antt =====
-- The byte loops decide the order of the 256-bit numbers that the hashes stand for.
use doge_lucky_mining.Common.{
  ℕ, zero, suc, ◌+◌, ◌*◌, ◌^◌, ◌<◌, ◌≤◌, ◌≡◌, refl, ap, Bool, true, false, [], ◌∷◌, arith, length,
  get_or, All, take, ltb, leb, if◌then◌else◌, take_all,
}
use doge_lucky_mining.Bytes.{Bytes, IsByte, IsHash, get_le}
use doge_lucky_mining.HashCompare.{compare_le, hash_meets_target_le}
use native.Mathlib.Nat.{pow-suc}

-- The number of the lowest `k` bytes.
low : ℕ → Bytes → ℕ
low k b = get_le (take k b)

low-suc : (k : ℕ) (b : Bytes) → k < length b → low (suc k) b ≡ low k b + 256 ^ k * get_or b k 0
unfolding low get_le
low-suc k [] h = absurd (omega arith)
low-suc zero (x ∷ b) h = omega arith
low-suc (suc k) (x ∷ b) h =
    omega (arith, low-suc k b (omega arith), ap (λ (t : ℕ). t * get_or b k 0) (pow-suc 256 k))

pow_pos : (k : ℕ) → 0 < 256 ^ k
pow_pos zero = omega arith
pow_pos (suc k) = omega (arith, pow_pos k, pow-suc 256 k)

low_bound : (k : ℕ) (b : Bytes) → All IsByte b → low k b < 256 ^ k
unfolding low get_le
low_bound zero b h = omega arith
low_bound (suc k) [] h = omega (arith, pow_pos (suc k))
low_bound (suc k) (x ∷ b) h = omega (arith, low_bound k b h.1, h.0, pow-suc 256 k)

digit_lt : (p a b x y : ℕ) → a < p → x < y → a + p * x < b + p * y
digit_lt p a b x y h k = grind arith

compare_step :
    (p a b x y : ℕ) (rest : Bool)
    → a < p
    → b < p
    → rest ≡ leb a b
    → (if ltb x y then true else if ltb y x then false else rest) ≡ leb (a + p * x) (b + p * y)
compare_step p a b x y rest ha hb e = ground (arith, digit_lt p a b x y, digit_lt p b a y x)

compare_le-low :
    (k : ℕ) (h t : Bytes)
    → k ≤ length h
    → k ≤ length t
    → All IsByte h
    → All IsByte t
    → compare_le k h t ≡ leb (low k h) (low k t)
unfolding compare_le
compare_le-low zero h t p q u v = unfold low get_le in refl
compare_le-low (suc k) h t p q u v =
    rw (low-suc k h (omega arith), low-suc k t (omega arith))
      (compare_step (256 ^ k) (low k h) (low k t) (get_or h k 0) (get_or t k 0) (compare_le k h t)
        (low_bound k h u) (low_bound k t v) (compare_le-low k h t (omega arith) (omega arith) u v))

-- `hashMeetsTargetLE` accepts a 32-byte hash exactly when, as a little-endian number, it is at most
-- the target.
pub hash_meets_target_le_lem :
    (hash target : Bytes)
    → IsHash hash
    → IsHash target
    → hash_meets_target_le hash target ≡ leb (get_le hash) (get_le target)
unfolding hash_meets_target_le
hash_meets_target_le_lem hash target h t =
    rw (h.0, t.0)
      (rw (compare_le-low 32 hash target (omega arith) (omega arith) h.1 t.1)
        (unfold low in rw (take_all hash 32 (omega arith), take_all target 32 (omega arith))))
