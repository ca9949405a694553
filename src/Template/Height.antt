-- ===== src/Template/Height.antt =====
-- The height in the coinbase script, as BIP34 reads it.
use doge_lucky_mining.Common.{
  ℕ, zero, suc, ◌+◌, ◌*◌, ◌/◌, ◌%◌, ◌^◌, ◌≤◌, ◌<◌, ◌≡◌, refl, inl, inr, [], ◌∷◌, ◌++◌, arith,
  length, length-append, All, Bool-cases, ◌==◌,
}
use native.Mathlib.Nat.{pow-suc, pow-le-pow_right, lt_of_mul-lt-mul_left, mul-le-mul_right}
use native.Mathlib.Decide.{dec_lt}
use mathlib.Core.Path.{subst}
use doge_lucky_mining.Bytes.{Bytes, IsByte, get_le}
use doge_lucky_mining.Compact.{le_digits}
use doge_lucky_mining.Mining.Target.{
  get_le-le_digits, le_digits-IsByte, length-le_digits-le, get_le-zeros,
}
use doge_lucky_mining.Template.{last_byte, with_sign, or_zero, height_bytes}

last_byte-append : (bs : Bytes) (b : ℕ) → last_byte (bs ++ (b ∷ [])) ≡ b
last_byte-append [] b = refl
last_byte-append (c ∷ []) b = refl
last_byte-append (c ∷ d ∷ bs) b = last_byte-append (d ∷ bs) b

last_byte-IsByte : (bs : Bytes) → All IsByte bs → last_byte bs < 256
last_byte-IsByte [] h = omega arith
last_byte-IsByte (c ∷ []) h = h.0
last_byte-IsByte (c ∷ d ∷ bs) h = last_byte-IsByte (d ∷ bs) h.1

-- A number is at least its highest byte at its place.
last_byte-le : (b : ℕ) (bs : Bytes) → last_byte (b ∷ bs) * 256 ^ length bs ≤ get_le (b ∷ bs)
unfolding get_le
last_byte-le b [] = omega arith
last_byte-le b (c ∷ bs) = rw (pow-suc 256 (length bs)) (omega (arith, last_byte-le c bs))

-- What the script says of a number `n`, over its bytes.
abbrev pub Encodes : ℕ → Bytes → Type 0
Encodes n bs =
    (get_le bs ≡ n)
    × (last_byte bs < 128)
    × (0 < length bs)
    × ((k : ℕ) → n < 128 * 256 ^ k → length bs ≤ k + 1)

pow_lt : (m k : ℕ) → 256 ^ m < 256 ^ k → m < k
pow_lt m k h = elim (dec_lt m k) [
  | yes l ↦ l
  | no l ↦
      absurd (omega (arith, pow-le-pow_right {n = 256} (omega arith) {i = k} {j = m} (omega arith)))
]

short : (l p q n : ℕ) → 128 ≤ l → l * p ≤ n → n < 128 * q → p < q
short l p q n h le lt = lt_of_mul-lt-mul_left 128 (omega (arith, mul-le-mul_right p h))

signed :
    (b : ℕ) (bs : Bytes)
    → All IsByte (b ∷ bs)
    → ((k : ℕ) → get_le (b ∷ bs) < 256 ^ k → length (b ∷ bs) ≤ k)
    → Encodes (get_le (b ∷ bs)) (or_zero (with_sign (b ∷ bs)))
signed b bs bytes few = elim (Bool-cases (last_byte (b ∷ bs) / 0x80 % 2 == 1)) [
  | inl e ↦
      let high : 128 ≤ last_byte (b ∷ bs) = ground (arith, last_byte-IsByte (b ∷ bs) bytes) in
      rw e (
        get_le-zeros (b ∷ bs) 1,
        omega (arith, last_byte-append (b ∷ bs) 0),
        omega arith,
        (λ k h. omega (
          arith,
          length-append bs (0 ∷ []),
          pow_lt (length bs) k (
              short (last_byte (b ∷ bs)) (256 ^ length bs) (256 ^ k) (get_le (b ∷ bs)) high
                (last_byte-le b bs) h),
        )),
      )
  | inr e ↦ rw e (
    refl,
    ground (arith, last_byte-IsByte (b ∷ bs) bytes),
    omega arith,
    (λ k h. omega (
      arith,
      few (suc k)
          (below (256 ^ k) (256 ^ suc k) (get_le (b ∷ bs)) h (omega (arith, pow-suc 256 k))),
    )),
  )
]
  where
    below : (p q n : ℕ) → n < 128 * p → q ≡ 256 * p → n < q
    below p q n h e = omega arith

-- The bytes that `createEmptyBlock` pushes for a height are a script number that stands for it:
-- read lowest byte first they are the height, the highest byte has no sign bit, and no shorter
-- sequence could hold the height beside a sign bit.
pub height_bytes-Encodes : (height : ℕ) → Encodes height (height_bytes height)
unfolding height_bytes
height_bytes-Encodes zero =
    unfold get_le le_digits in (refl, omega arith, omega arith, λ k h. omega arith)
height_bytes-Encodes (suc n) =
    let value = get_le-le_digits (suc n) (suc n) (omega arith) in
    unfold le_digits in
    subst (λ m. Encodes m (height_bytes (suc n))) value
      (signed (suc n % 256) (le_digits n (suc n / 256)) (le_digits-IsByte (suc n) (suc n))
        (λ k h. length-le_digits-le k (suc n) (suc n) (subst (λ m. m < 256 ^ k) value h)))
