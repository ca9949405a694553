-- ===== src/Compact/Canonical.antt =====
-- Compact forms that survive decoding and encoding, and targets that do not survive encoding.
use doge_lucky_mining.Common.{
  ℕ, zero, suc, ◌+◌, ◌-◌, ◌*◌, ◌/◌, ◌%◌, ◌^◌, ◌<◌, ◌≤◌, ◌≡◌, ap, sym, ◌∙◌, false, arith, le→leb,
  ◌==◌,
}
use doge_lucky_mining.Compact.{bits_to_target, big_to_compact, byte_length}
use doge_lucky_mining.Compact.Digits.{pow_pos, byte_length_span}
use doge_lucky_mining.Compact.RoundTrip.{
  bits_to_target_large, big_to_compact_large, compact_of, powers, mul_mono, IsCanonical,
}
use native.Mathlib.Decide.{dec_le}
use native.Mathlib.Nat.{mul-div_cancel, pow-suc}

-- A three-byte mantissa with its top byte set is encoded as it stands.
encode_exact :
    (k m : ℕ)
    → 2 ^ 16 ≤ m
    → m < 2 ^ 24
    → k < 251
    → big_to_compact (m * 256 ^ (k + 1)) ≡ compact_of k m
encode_exact k m l u h =
    big_to_compact_large k (m * 256 ^ (k + 1))
      (omega (arith, powers k, mul_mono (2 ^ 16) m (256 ^ (k + 1)) l))
      (omega
        (arith, powers k, mul_mono (m + 1) (2 ^ 24) (256 ^ (k + 1)) (omega arith), pow_pos (k + 1)))
      h
    ∙ ap (compact_of k) (mul-div_cancel m (pow_pos (k + 1)))

long_mantissa :
    (k w : ℕ)
    → 2 ^ 16 ≤ w
    → w < 2 ^ 23
    → k < 251
    → big_to_compact (w * 256 ^ (k + 1)) ≡ (k + 4) * 2 ^ 24 + w
long_mantissa k w l u h = encode_exact k w l (omega arith) h ∙ ground arith

short_mantissa :
    (k w : ℕ)
    → 2 ^ 15 ≤ w
    → w < 2 ^ 16
    → k < 251
    → big_to_compact (w * 256 ^ (k + 2)) ≡ (k + 5) * 2 ^ 24 + w
short_mantissa k w l u h =
    ap big_to_compact (omega (arith, ap (λ (q : ℕ). w * q) ((powers k).2)))
    ∙ encode_exact k (w * 256) (omega arith) (omega arith) h
    ∙ ground arith

canonical_parts :
    (j w : ℕ)
    → 2 ^ 15 ≤ w
    → w < 2 ^ 23
    → j < 248
    → 2 ^ 24 ≤ w * 256 ^ (j + 1)
    → big_to_compact (w * 256 ^ (j + 1)) ≡ (j + 4) * 2 ^ 24 + w
canonical_parts zero w l u h t = elim (dec_le (2 ^ 16) w) [
  | yes p ↦ long_mantissa 0 w p u (omega arith)
  | no p ↦ absurd (omega arith)
]
canonical_parts (suc i) w l u h t = elim (dec_le (2 ^ 16) w) [
  | yes p ↦ long_mantissa (suc i) w p u (omega arith)
  | no p ↦
      ap (λ e. big_to_compact (w * 256 ^ e)) (omega arith)
      ∙ short_mantissa i w l (omega arith) (omega arith)
      ∙ omega arith
]

-- Encoding the target of a compact form gives the compact form back if its mantissa has 16 to 23 bits, its
-- exponent is between 4 and 251, and the target is at least 2 ^ 24; a target of at most three bytes is
-- left out, since `BigToCompact` does not give its form back.
pub big_to_compact-bits_to_target :
    (bits : ℕ) → IsCanonical bits → big_to_compact (bits_to_target bits) ≡ bits
big_to_compact-bits_to_target bits c =
    let j = bits / 2 ^ 24 - 4 in
    let w = bits % 2 ^ 24 in
    let split : bits ≡ (j + 4) * 2 ^ 24 + w = omega (arith, c.exponent_large) in
    let target : bits_to_target bits ≡ w * 256 ^ (j + 1) =
      ap bits_to_target split ∙ bits_to_target_large j w (omega arith) in
    ap big_to_compact target
    ∙ canonical_parts j w c.mantissa_long c.mantissa_short (omega (arith, c.exponent_fits))
        (omega (arith, target, c.target_large))
    ∙ sym split

small_encode :
    (n e : ℕ)
    → byte_length n ≡ e
    → e ≤ 3
    → 0 < n
    → big_to_compact n ≡ n * 2 ^ (8 * (3 - e)) % 2 ^ 32
unfolding big_to_compact
small_encode n e h l p =
    let nonzero : (n == 0) ≡ false = ground arith in rw (h, nonzero, le→leb e 3 l)

-- A positive target of at most three bytes is encoded with no exponent: decoding gives the target 0.
pub big_to_compact_small : (n : ℕ) → 0 < n → n < 2 ^ 24 → bits_to_target (big_to_compact n) ≡ 0
unfolding bits_to_target
big_to_compact_small n p u = let (j, lo, hi, e) = byte_length_span n p in go j lo hi e
  where
    no_exponent : (c : ℕ) → c < 2 ^ 24 → bits_to_target c ≡ 0
    no_exponent c h =
        let e : c / 2 ^ 24 ≡ 0 = omega arith in
        let f : c % 2 ^ 24 ≡ c = omega arith in rw (e, f) (omega arith)

    go :
        (j : ℕ)
        → 256 ^ j ≤ n
        → n < 256 ^ suc j
        → byte_length n ≡ suc j
        → bits_to_target (big_to_compact n) ≡ 0
    go zero lo hi e =
        ap bits_to_target (small_encode n 1 e (omega arith) p) ∙ no_exponent _ (omega arith)
    go (suc zero) lo hi e =
        ap bits_to_target (small_encode n 2 e (omega arith) p) ∙ no_exponent _ (omega arith)
    go (suc (suc zero)) lo hi e =
        ap bits_to_target (small_encode n 3 e (omega arith) p) ∙ no_exponent _ (omega arith)
    go (suc (suc (suc k))) lo hi e =
        absurd
          (omega (arith, pow_pos k, pow-suc 256 k, pow-suc 256 (suc k), pow-suc 256 (suc (suc k))))
