-- ===== src/Difficulty/Retarget.antt =====
-- The target of the next block, decoded again.
use doge_lucky_mining.Common.{
  ℕ, zero, suc, ◌+◌, ◌*◌, ◌^◌, ◌≤◌, ◌<◌, ◌≡◌, refl, ap, ◌∙◌, inl, inr, true, false, Option, none,
  some, arith, ltb, ◌==◌, Bool-cases, bytes_equal, leb, ◌&&◌,
}
use doge_lucky_mining.Common.Int.{pos_part}
use doge_lucky_mining.Hex.{Text, codes}
use doge_lucky_mining.Block.{BlockHeader}
use doge_lucky_mining.Compact.{
  bits_to_target, big_to_compact, doge_pow_limit_compact, doge_pow_limit_uint256,
}
use doge_lucky_mining.Compact.RoundTrip.{bits_to_target-big_to_compact, IsCanonical, mul_mono}
use doge_lucky_mining.Compact.Canonical.{big_to_compact-bits_to_target, big_to_compact_small}
use doge_lucky_mining.Difficulty.{
  modulated_timespan, next_target, calculate_digishield_next_work, next_work_of, given, value,
  get_next_work_required_extended, doge_digishield_start_height,
}
use doge_lucky_mining.Difficulty.Timespan.{modulated_timespan_bounds, modulated_timespan_stable}
use native.Mathlib.Decide.{dec_lt}

-- Encoding never makes a target easier.
decoded-le : (n : ℕ) → n < 2 ^ 256 → bits_to_target (big_to_compact n) ≤ n
decoded-le zero h = unfold bits_to_target big_to_compact in omega arith
decoded-le (suc n) h = elim (dec_lt (suc n) (2 ^ 24)) [
  | yes s ↦ omega (arith, big_to_compact_small (suc n) (omega arith) s)
  | no l ↦ (bits_to_target-big_to_compact (suc n) (omega arith) h).0
]

next_target-le :
    (old t : ℕ) → (next_target old t ≤ doge_pow_limit_uint256) × (next_target old t * 60 ≤ old * t)
unfolding next_target
next_target-le old t = ground arith

-- DigiShield changes a target by a factor of at most 3/2 upwards, and never gives a target above
-- the limit of proof of work.
pub digishield_bounds :
    (tip_bits tip_time parent_time : ℕ)
    → 0 < bits_to_target tip_bits
    → let next = bits_to_target (calculate_digishield_next_work tip_bits tip_time parent_time) in
      (next ≤ doge_pow_limit_uint256) × (next * 60 ≤ bits_to_target tip_bits * 90)
unfolding calculate_digishield_next_work
digishield_bounds b t p h =
    let nonzero : (bits_to_target b == 0) ≡ false = ground arith in
    let m = pos_part (modulated_timespan t p) in
    let new = next_target (bits_to_target b) m in
    let le = decoded-le new (omega (arith, next_target-le (bits_to_target b) m)) in
    rw nonzero (
      omega (arith, le, next_target-le (bits_to_target b) m),
      omega (
        arith,
        le,
        next_target-le (bits_to_target b) m,
        mul_mono m 90 (bits_to_target b) (modulated_timespan_bounds t p).2,
      ),
    )

-- A tip mined 53 to 67 seconds after its parent leaves the bits as they are, where these are a
-- canonical compact form of a target within the limit.
pub digishield_stable :
    (tip_bits tip_time parent_time : ℕ)
    → IsCanonical tip_bits
    → bits_to_target tip_bits ≤ doge_pow_limit_uint256
    → parent_time + 53 ≤ tip_time
    → tip_time ≤ parent_time + 67
    → calculate_digishield_next_work tip_bits tip_time parent_time ≡ tip_bits
unfolding calculate_digishield_next_work next_target
digishield_stable b t p c l early late =
    let nonzero : (bits_to_target b == 0) ≡ false = ground (arith, c.target_large) in
    rw (nonzero, modulated_timespan_stable t p early late)
      (ap big_to_compact (same (bits_to_target b) l) ∙ big_to_compact-bits_to_target b c)
  where
    same : (old : ℕ) → old ≤ doge_pow_limit_uint256 → next_target old 60 ≡ old
    same old h = ground arith

-- The target of the bits is within the limit of proof of work.
abbrev WithinLimit : ℕ → Type 0
WithinLimit bits = bits_to_target bits ≤ doge_pow_limit_uint256

digishield-WithinLimit :
    (b t p : ℕ) → WithinLimit b → WithinLimit (calculate_digishield_next_work b t p)
unfolding calculate_digishield_next_work
digishield-WithinLimit b t p h = elim (dec_lt 0 (bits_to_target b)) [
  | yes q ↦ (digishield_bounds b t p q).0
  | no q ↦ zero_target b t p (omega arith) h
]
  where
    zero_target :
        (b t p : ℕ)
        → bits_to_target b ≡ 0
        → WithinLimit b
        → WithinLimit (calculate_digishield_next_work b t p)
    zero_target b t p e h =
        let z : (bits_to_target b == 0) ≡ true = ground (arith, e) in
        rw (z, calculate_digishield_next_work) h

next_work_of-WithinLimit :
    (tip : BlockHeader) (parent : ℕ) → WithinLimit tip.bits → WithinLimit (next_work_of tip parent)
unfolding next_work_of
next_work_of-WithinLimit tip parent h =
    elim (Bool-cases (ltb tip.height doge_digishield_start_height)) [
      | inl e ↦ rw e h
      | inr e ↦ rw e (elim (Bool-cases (parent == 0)) [
        | inl f ↦ rw f h
        | inr f ↦ rw f (digishield-WithinLimit tip.bits tip.timestamp parent h)
      ])
    ]

-- Whatever the network, the times and the height, the bits of the next block stand for a target within
-- the limit of proof of work, if those of the tip and the last bits above the minimum do.
pub next_work_within_limit :
    (tip : Option BlockHeader) (block_time : ℕ) (network : Text) (last : Option ℕ) (parent : ℕ)
    → ((t : BlockHeader) → tip ≡ some t → bits_to_target t.bits ≤ doge_pow_limit_uint256)
    → bits_to_target (value last) ≤ doge_pow_limit_uint256
    → bits_to_target (get_next_work_required_extended tip block_time network last parent)
      ≤ doge_pow_limit_uint256
unfolding get_next_work_required_extended
next_work_within_limit none block_time network last parent t l =
    unfold bits_to_target in omega arith
next_work_within_limit (some tip) block_time network last parent t l =
    elim (Bool-cases (bytes_equal network (codes "testnet") && leb 157500 tip.height)) [
      | inr e ↦ rw e (next_work_of-WithinLimit tip parent (t tip refl))
      | inl e ↦ rw e (elim (Bool-cases (ltb (tip.timestamp + 120) block_time)) [
        | inl f ↦ rw f (unfold bits_to_target in omega arith)
        | inr f ↦ rw f (elim (Bool-cases (tip.bits == doge_pow_limit_compact && given last)) [
          | inl g ↦ rw g l
          | inr g ↦ rw g (next_work_of-WithinLimit tip parent (t tip refl))
        ])
      ])
    ]
