-- ===== src/Compact/Digits.antt =====
-- The number of bytes of a number, and powers of 256.
use doge_lucky_mining.Common.{
  ℕ, zero, suc, ◌+◌, ◌*◌, ◌/◌, ◌^◌, ◌<◌, ◌≤◌, ◌≡◌, refl, ap, ◌∙◌, ◌⊎◌, inl, inr, [], arith, length,
}
use doge_lucky_mining.Compact.{le_digits, byte_length}
use native.Mathlib.Nat.{pow-suc}
use native.Mathlib.Numerals.{towards_suc}

pub pow_256 : (k : ℕ) → 2 ^ (8 * k) ≡ 256 ^ k
pow_256 zero = refl
pow_256 (suc k) =
    let e : 8 * suc k ≡ 8 * k + 8 = omega arith in
    rw e (step (8 * k) ∙ omega (arith, pow_256 k, pow-suc 256 k))
  where
    step : (s : ℕ) → 2 ^ (s + 8) ≡ 256 * 2 ^ s
    step s = simp towards_suc (omega arith)

pub pow_pos : (k : ℕ) → 0 < 256 ^ k
pow_pos zero = omega arith
pow_pos (suc k) = omega (arith, pow_pos k, pow-suc 256 k)

le_digits_zero : (fuel : ℕ) → le_digits fuel 0 ≡ []
unfolding le_digits
le_digits_zero zero = refl
le_digits_zero (suc fuel) = refl

-- A number with `k + 1` bytes lies between two powers of 256.
length-le_digits :
    (k fuel n : ℕ) → n ≤ fuel → 256 ^ k ≤ n → n < 256 ^ suc k → length (le_digits fuel n) ≡ suc k
unfolding le_digits
length-le_digits k fuel zero h l u = absurd (omega (arith, pow_pos k))
length-le_digits k zero (suc n) h l u = absurd (omega arith)
length-le_digits zero (suc fuel) (suc n) h l u =
    let e : suc n / 256 ≡ 0 = omega arith in ap suc (rw e (ap length (le_digits_zero fuel)))
length-le_digits (suc k) (suc fuel) (suc n) h l u = ap suc (
    length-le_digits k fuel (suc n / 256) (omega arith) (omega (arith, pow-suc 256 k))
      (omega (arith, pow-suc 256 k, pow-suc 256 (suc k))))

span : (fuel n : ℕ) → n ≤ fuel → 0 < n → (k : ℕ) × (256 ^ k ≤ n) × (n < 256 ^ suc k)
span zero n h p = absurd (omega arith)
span (suc fuel) n h p = elim (small_or_not n) [
  | inl s ↦ (0, omega arith, omega arith)
  | inr l ↦
      let (k, lo, hi) = span fuel (n / 256) (omega arith) (omega arith) in
      (suc k, omega (arith, pow-suc 256 k), omega (arith, pow-suc 256 (suc k)))
]
  where
    small_or_not : (n : ℕ) → (n < 256) ⊎ (256 ≤ n)
    small_or_not n = omega arith

pub byte_length_lem : (k n : ℕ) → 256 ^ k ≤ n → n < 256 ^ suc k → byte_length n ≡ suc k
unfolding byte_length
byte_length_lem k n l u = length-le_digits k n n (omega arith) l u

pub byte_length_span :
    (n : ℕ) → 0 < n → (k : ℕ) × (256 ^ k ≤ n) × (n < 256 ^ suc k) × (byte_length n ≡ suc k)
byte_length_span n p =
    let (k, l, u) = span n n (omega arith) p in (k, l, u, byte_length_lem k n l u)
