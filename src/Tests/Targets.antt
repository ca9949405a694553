-- ===== src/Tests/Targets.antt =====
-- Targets and the next work at concrete inputs.
use doge_lucky_mining.Common.{◌≡◌, ◌≤◌, ◌*◌, ◌+◌, ◌^◌, arith, none, some}
use mathlib.Core.Path.{subst}
use doge_lucky_mining.Hex.{codes}
use doge_lucky_mining.Block.{BlockHeader}
use doge_lucky_mining.Compact.{bits_to_target, big_to_compact, doge_pow_limit_uint256}
use doge_lucky_mining.Compact.RoundTrip.{IsCanonical, bits_to_target-big_to_compact}
use doge_lucky_mining.Compact.Canonical.{big_to_compact-bits_to_target}
use doge_lucky_mining.Difficulty.{calculate_digishield_next_work, get_next_work_required_extended}
use doge_lucky_mining.Difficulty.Retarget.{digishield_bounds, next_work_within_limit}
use doge_lucky_mining.Tests.Data.{first_header}

bits_to_target-big_to_compact_example :
    (bits_to_target (big_to_compact (2 ^ 200 + 1)) ≤ 2 ^ 200 + 1)
    × ((2 ^ 200 + 1) * 2 ^ 15
        ≤ bits_to_target (big_to_compact (2 ^ 200 + 1)) * 2 ^ 15 + (2 ^ 200 + 1))
bits_to_target-big_to_compact_example =
    bits_to_target-big_to_compact (2 ^ 200 + 1) (omega arith) (omega arith)

limit-IsCanonical : IsCanonical 0x1e0ffff0
limit-IsCanonical = record {
  mantissa_long = omega arith;
  mantissa_short = omega arith;
  exponent_fits = omega arith;
  exponent_large = omega arith;
  target_large = unfold bits_to_target in omega arith;
}

big_to_compact-bits_to_target_example : big_to_compact (bits_to_target 0x1e0ffff0) ≡ 0x1e0ffff0
big_to_compact-bits_to_target_example = big_to_compact-bits_to_target 0x1e0ffff0 limit-IsCanonical

digishield_bounds_example :
    (bits_to_target (calculate_digishield_next_work 0x1b0ffff0 1000 900) ≤ doge_pow_limit_uint256)
    × (bits_to_target (calculate_digishield_next_work 0x1b0ffff0 1000 900) * 60
        ≤ bits_to_target 0x1b0ffff0 * 90)
digishield_bounds_example =
    digishield_bounds 0x1b0ffff0 1000 900 (unfold bits_to_target in omega arith)

some_eq : (h : BlockHeader) → some first_header ≡ some h → first_header ≡ h
some_eq h e = cc

next_work_within_limit_example :
    bits_to_target
      (get_next_work_required_extended (some first_header) 2000000000 (codes "testnet") none 5)
    ≤ doge_pow_limit_uint256
next_work_within_limit_example =
    next_work_within_limit (some first_header) 2000000000 (codes "testnet") none 5
      (λ t e.
        subst (λ h. bits_to_target h.bits ≤ doge_pow_limit_uint256) (some_eq t e)
          (unfold bits_to_target in omega arith))
      (unfold bits_to_target in omega arith)
