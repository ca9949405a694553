-- ===== src/Compact/RoundTrip.antt =====
-- How much of a target its compact form keeps.
use doge_lucky_mining.Common.{
  ℕ, zero, suc, ◌+◌, ◌-◌, ◌*◌, ◌/◌, ◌%◌, ◌^◌, ◌<◌, ◌≤◌, ◌≡◌, ap, ◌∙◌, inl, inr, false, arith, leb,
  ◌==◌, if◌then◌else◌, Bool-cases, leb→le,
}
use doge_lucky_mining.Compact.{bits_to_target, big_to_compact, byte_length}
use doge_lucky_mining.Compact.Digits.{pow_256, pow_pos, byte_length_lem, byte_length_span}
use mathlib.Core.Path.{subst}
use native.Mathlib.Decide.{dec_lt}
use native.Mathlib.Numerals.{towards_suc}
use native.Mathlib.Nat.{
  pow-le-pow_right, div-mul-le_self, lt-mul-div-succ, le-div_iff_mul-le, div-lt_iff_lt-mul,
}

-- The target of an exponent above 3 and a mantissa.
pub bits_to_target_large :
    (k w : ℕ) → w < 2 ^ 24 → bits_to_target ((k + 4) * 2 ^ 24 + w) ≡ w * 256 ^ (k + 1)
unfolding bits_to_target
bits_to_target_large k w h =
    let size : ((k + 4) * 2 ^ 24 + w) / 2 ^ 24 ≡ k + 4 = omega arith in
    let word : ((k + 4) * 2 ^ 24 + w) % 2 ^ 24 ≡ w = omega arith in
    rw (size, word) (rw (not_small k) (ap (λ e. w * e) (shift k ∙ pow_256 (k + 1))))
  where
    not_small : (k : ℕ) → leb (k + 4) 3 ≡ false
    not_small k = ground arith

    shift : (k : ℕ) → 2 ^ (8 * (k + 4 - 3)) ≡ 2 ^ (8 * (k + 1))
    shift k = ap (λ e. 2 ^ e) (omega arith)

-- The top three bytes of a number of `k + 4` bytes.
abbrev pub top : ℕ → ℕ → ℕ
top k n = n / 256 ^ (k + 1)

pub powers :
    (k : ℕ)
    → (256 ^ (k + 3) ≡ 2 ^ 16 * 256 ^ (k + 1))
      × (256 ^ (k + 4) ≡ 2 ^ 24 * 256 ^ (k + 1))
      × (256 ^ (k + 2) ≡ 256 * 256 ^ (k + 1))
powers k =
    (simp towards_suc (omega arith), simp towards_suc (omega arith), simp towards_suc (omega arith))

top_bounds :
    (k n : ℕ) → 256 ^ (k + 3) ≤ n → n < 256 ^ (k + 4) → (2 ^ 16 ≤ top k n) × (top k n < 2 ^ 24)
top_bounds k n l u = (
  (le-div_iff_mul-le (pow_pos (k + 1))).1 (omega (arith, powers k)),
  (div-lt_iff_lt-mul (pow_pos (k + 1))).1 (omega (arith, powers k)),
)

-- The mantissa loses its last byte where its sign bit would be set.
abbrev pub compact_of : ℕ → ℕ → ℕ
compact_of k m = if leb (2 ^ 23) m then (k + 5) * 2 ^ 24 + m / 256 else (k + 4) * 2 ^ 24 + m

packed :
    (k m : ℕ)
    → 2 ^ 16 ≤ m
    → m < 2 ^ 24
    → k < 251
    → (if m % 2 ^ 32 / 2 ^ 23 % 2 == 1
        then ((k + 4 + 1) * 2 ^ 24 + m % 2 ^ 32 / 2 ^ 8 % 2 ^ 23) % 2 ^ 32
        else ((k + 4) * 2 ^ 24 + m % 2 ^ 32 % 2 ^ 23) % 2 ^ 32)
      ≡ compact_of k m
packed k m l u h = ground arith

pub big_to_compact_large :
    (k n : ℕ)
    → 256 ^ (k + 3) ≤ n
    → n < 256 ^ (k + 4)
    → k < 251
    → big_to_compact n ≡ compact_of k (top k n)
unfolding big_to_compact
big_to_compact_large k n l u h =
    rw (bytes, nonzero, large)
      (rw (shift k ∙ pow_256 (k + 1))
        (packed k (top k n) (top_bounds k n l u).0 (top_bounds k n l u).1 h))
  where
    bytes : byte_length n ≡ k + 4
    bytes = byte_length_lem (k + 3) n l (subst (λ e. n < 256 ^ e) (omega arith) u) ∙ omega arith

    nonzero : (n == 0) ≡ false
    nonzero = ground (arith, pow_pos (k + 3))

    large : leb (k + 4) 3 ≡ false
    large = ground arith

    shift : (k : ℕ) → 2 ^ (8 * (k + 4 - 3)) ≡ 2 ^ (8 * (k + 1))
    shift k = ap (λ e. 2 ^ e) (omega arith)

-- Every 256-bit number of more than three bytes has `k + 4` bytes for some `k` below 29.
large_span :
    (n : ℕ)
    → 2 ^ 24 ≤ n
    → n < 2 ^ 256
    → (k : ℕ) × (256 ^ (k + 3) ≤ n) × (n < 256 ^ (k + 4)) × (k < 29)
large_span n l u = let (j, lo, hi, e) = byte_length_span n (omega arith) in go j lo hi
  where
    few : (k : ℕ) → 256 ^ suc (suc (suc k)) ≤ n → k < 29
    few k lo = elim (dec_lt k 29) [
      | yes h ↦ h
      | no h ↦ absurd (
          omega (
            arith,
            pow-le-pow_right {n = 256} (omega arith) {i = 32} {j = suc (suc (suc k))} (omega arith),
          ))
    ]

    go :
        (j : ℕ)
        → 256 ^ j ≤ n
        → n < 256 ^ suc j
        → (k : ℕ) × (256 ^ (k + 3) ≤ n) × (n < 256 ^ (k + 4)) × (k < 29)
    go zero lo hi = absurd (omega arith)
    go (suc zero) lo hi = absurd (omega arith)
    go (suc (suc zero)) lo hi = absurd (omega arith)
    go (suc (suc (suc k))) lo hi = (
      k,
      subst (λ e. 256 ^ e ≤ n) (omega arith) lo,
      subst (λ e. n < 256 ^ e) (omega arith) hi,
      few k lo,
    )

pub mul_mono : (a b p : ℕ) → a ≤ b → a * p ≤ b * p
mul_mono a b p h = grind arith

decode_compact_of :
    (k m : ℕ)
    → m < 2 ^ 24
    → bits_to_target (compact_of k m)
      ≡ (if leb (2 ^ 23) m then m / 256 * (256 * 256 ^ (k + 1)) else m * 256 ^ (k + 1))
decode_compact_of k m h = elim (Bool-cases (leb (2 ^ 23) m)) [
  | inl e ↦ rw e (
      ap (λ j. bits_to_target (j * 2 ^ 24 + m / 256)) (omega arith)
      ∙ bits_to_target_large (k + 1) (m / 256) (omega arith)
      ∙ ap (λ q. m / 256 * q) (ap (λ j. 256 ^ j) (omega arith) ∙ (powers k).2))
  | inr e ↦ rw e (bits_to_target_large k m h)
]

decoded_bounds :
    (p n m t : ℕ)
    → m * p ≤ n
    → n < (m + 1) * p
    → 2 ^ 16 ≤ m
    → t ≡ (if leb (2 ^ 23) m then m / 256 * (256 * p) else m * p)
    → (t ≤ n) × (n * 2 ^ 15 ≤ t * 2 ^ 15 + n)
decoded_bounds p n m t lo hi big e = elim (Bool-cases (leb (2 ^ 23) m)) [
  | inl h ↦
      let d : t ≡ m / 256 * (256 * p) = e ∙ rw h in
      omega (
        arith,
        d,
        mul_mono (m / 256 * 256) m p (omega arith),
        mul_mono (m + 1) (m / 256 * 256 + 256) p (omega arith),
        mul_mono (2 ^ 23) m p (leb→le _ _ h),
      )
  | inr h ↦ let d : t ≡ m * p = e ∙ rw h in omega (arith, d, mul_mono (2 ^ 16) m p big)
]

-- For every 256-bit target of more than three bytes, decoding its compact form gives a target that is
-- no easier, and that is smaller by at most one part in 2 ^ 15.
pub bits_to_target-big_to_compact :
    (n : ℕ)
    → 2 ^ 24 ≤ n
    → n < 2 ^ 256
    → (bits_to_target (big_to_compact n) ≤ n)
      × (n * 2 ^ 15 ≤ bits_to_target (big_to_compact n) * 2 ^ 15 + n)
bits_to_target-big_to_compact n l u =
    let (k, lo, hi, small) = large_span n l u in
    let p = 256 ^ (k + 1) in
    decoded_bounds p n (top k n) (bits_to_target (big_to_compact n)) (div-mul-le_self n p)
      (omega (arith, lt-mul-div-succ n (pow_pos (k + 1)))) (top_bounds k n lo hi).0
      (ap bits_to_target (big_to_compact_large k n lo hi (omega arith))
        ∙ decode_compact_of k (top k n) (top_bounds k n lo hi).1)

-- A compact form that is no shorter than it could be: a mantissa of 16 to 23 bits, an exponent of one
-- byte, and a target of more than three bytes.
pub record IsCanonical (bits : ℕ) : Type 0 where
  pub mantissa_long : 2 ^ 15 ≤ bits % 2 ^ 24
  pub mantissa_short : bits % 2 ^ 24 < 2 ^ 23
  pub exponent_fits : bits / 2 ^ 24 < 252
  pub exponent_large : 4 ≤ bits / 2 ^ 24
  pub target_large : 2 ^ 24 ≤ bits_to_target bits
