-- ===== src/MiningLoop/Solve.antt =====
-- What the loop makes of the result of a search: whether it is a find, and whether its parent is
-- still the tip.
-- `none` is the panic of a slice out of range, for a target of more than 32 bytes. The result is that of
-- any of the miners.
pub mod Confirm
use doge_lucky_mining.Common.{
  ℕ, Bool, true, false, not, Option, none, some, reverse, length, ◌==◌, if◌then◌else◌, bytes_equal,
}
use doge_lucky_mining.Bytes.{get_le}
use doge_lucky_mining.Hex
use doge_lucky_mining.Hex.{Text, codes}
use doge_lucky_mining.HashCompare.{
  hash_meets_target_le, hash_to_display_hex, reverse_bytes_in_place,
}
use doge_lucky_mining.Block.{BlockHeader}
use doge_lucky_mining.Mining.{MiningResult, target_bytes_le}
use doge_lucky_mining.Template.{BlockTemplate}

-- `targetBig`: a target of 0 counts as 1, and `none` is nil, for a text that is no hex.
unfoldable pub target_big : Text → Option ℕ
target_big target = elim (Hex.decode target) [
  | none ↦ none
  | some b ↦ let value = get_le (reverse b) in some (if value == 0 then 1 else value)
]

-- `found` after the check of the hash.
unfoldable pub confirm : Text → MiningResult → Option Bool
confirm target r =
    if not r.found
    then some false
    else if length r.hash == 0
    then some false
    else elim (target_big target) [
      | none ↦ some true
      | some n ↦ elim (target_bytes_le n) [
        | none ↦ none
        | some t ↦ some (hash_meets_target_le r.hash t)
      ]
    ]

unfoldable pub tip_hash_display_hex : BlockHeader → Text
tip_hash_display_hex tip = hash_to_display_hex tip.hash

-- Testnet: a find whose parent is not the tip is discarded.
unfoldable pub is_discarded : Text → Option BlockHeader → BlockTemplate → Bool
is_discarded network none t = false
is_discarded network (some tip) t =
    if bytes_equal network (codes "testnet")
    then not (bytes_equal (tip_hash_display_hex tip) t.previous_block_hash)
    else false

-- `isStale`
unfoldable pub is_stale : Option BlockHeader → BlockTemplate → Bool
is_stale none t = false
is_stale (some tip) t =
    not (bytes_equal (Hex.encode (reverse_bytes_in_place tip.hash)) t.previous_block_hash)
