-- ===== src/Difficulty.antt =====
-- pow_dogecoin.go: the compact target that the next block must have.
-- Times are `uint32` values or the current time, so they are not negative; their difference is.
pub mod Timespan
pub mod Retarget
use doge_lucky_mining.Common.{
  ℕ, ◌+◌, ◌*◌, ◌/◌, Bool, true, false, not, ◌&&◌, Option, none, some, ltb, leb, ◌==◌, if◌then◌else◌,
  bytes_equal,
}
use doge_lucky_mining.Common.Int.{ℤ, pos, pos_part, sub_ℕ, ◌+ℤ◌, ◌-ℤ◌, quot, ltb_ℤ}
use doge_lucky_mining.Hex.{Text, codes}
use doge_lucky_mining.Block.{BlockHeader}
use doge_lucky_mining.Compact.{
  bits_to_target, big_to_compact, doge_pow_limit_compact, doge_pow_limit_uint256,
}

abbrev pub testnet_min_difficulty_spacing : ℕ
testnet_min_difficulty_spacing = 120

abbrev pub doge_digishield_start_height : ℕ
doge_digishield_start_height = 145000

abbrev pub retarget_timespan : ℕ
retarget_timespan = 60

-- `nActualTimespan`, at least 1.
unfoldable pub actual_timespan : ℕ → ℕ → ℤ
actual_timespan tip_time parent_time =
    let actual = sub_ℕ tip_time parent_time in if ltb_ℤ actual (pos 1) then pos 1 else actual

-- `nModulatedTimespan` between `nMinTimespan` and `nMaxTimespan`.
unfoldable pub modulated_timespan : ℕ → ℕ → ℤ
modulated_timespan tip_time parent_time =
    let modulated =
      pos retarget_timespan
      +ℤ quot (actual_timespan tip_time parent_time -ℤ pos retarget_timespan) 8 in
    let least = pos retarget_timespan -ℤ pos (retarget_timespan / 4) in
    let most = pos (retarget_timespan + retarget_timespan / 2) in
    if ltb_ℤ modulated least then least else if ltb_ℤ most modulated then most else modulated

-- The new target before it is encoded.
unfoldable pub next_target : ℕ → ℕ → ℕ
next_target old timespan =
    let new = old * timespan / retarget_timespan in
    if ltb doge_pow_limit_uint256 new then doge_pow_limit_uint256 else new

unfoldable pub calculate_digishield_next_work : ℕ → ℕ → ℕ → ℕ
calculate_digishield_next_work tip_bits tip_time parent_time =
    let old = bits_to_target tip_bits in
    if old == 0
    then tip_bits
    else big_to_compact (next_target old (pos_part (modulated_timespan tip_time parent_time)))

-- The rules that hold on both networks.
unfoldable pub next_work_of : BlockHeader → ℕ → ℕ
next_work_of tip tip_parent_timestamp =
    if ltb tip.height doge_digishield_start_height
    then tip.bits
    else if tip_parent_timestamp == 0
    then tip.bits
    else calculate_digishield_next_work tip.bits tip.timestamp tip_parent_timestamp

-- `lastNonMinBits != nil && *lastNonMinBits != 0`
abbrev given : Option ℕ → Bool
given none = false
given (some bits) = not (bits == 0)

abbrev pub value : Option ℕ → ℕ
value none = 0
value (some bits) = bits

unfoldable pub get_next_work_required_extended : Option BlockHeader → ℕ → Text → Option ℕ → ℕ → ℕ
get_next_work_required_extended none block_time network last_non_min_bits tip_parent_timestamp =
    doge_pow_limit_compact
get_next_work_required_extended (some tip) block_time network last_non_min_bits
      tip_parent_timestamp =
    if bytes_equal network (codes "testnet") && leb 157500 tip.height
    then if ltb (tip.timestamp + testnet_min_difficulty_spacing) block_time
      then doge_pow_limit_compact
      else if tip.bits == doge_pow_limit_compact && given last_non_min_bits
      then value last_non_min_bits
      else next_work_of tip tip_parent_timestamp
    else next_work_of tip tip_parent_timestamp

unfoldable pub get_next_work_required : Option BlockHeader → ℕ → Text → Option ℕ → ℕ
get_next_work_required tip block_time network last_non_min_bits =
    get_next_work_required_extended tip block_time network last_non_min_bits 0
