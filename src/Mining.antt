-- ===== src/Mining.antt =====
-- scrypt.go: the single-threaded search for a nonce, and `verifyBlockPoW` of main.go.
-- `golang.org/x/crypto/scrypt` at the parameters of Dogecoin is the parameter `scrypt`, from 80 bytes
-- to a hash. The random first nonce is an argument. The search recurs on the attempts that are left.
-- A slice expression out of range panics in Go: `none` stands for that.
pub mod Target
pub mod Search
pub mod Verify
pub mod Worker
pub mod Parallel
use doge_lucky_mining.Common.{
  ℕ, zero, suc, ◌+◌, ◌-◌, ◌%◌, ◌^◌, Bool, true, false, Option, none, some, List, [], ◌++◌, length,
  take, replicate, reverse, ltb, ◌==◌, if◌then◌else◌,
}
use doge_lucky_mining.Bytes.{Bytes, put_le, get_le}
use doge_lucky_mining.Hex
use doge_lucky_mining.Hex.{Text}
use doge_lucky_mining.HashCompare.{
  hash_meets_target_le, reverse_bytes_in_place, hash_to_display_hex,
}
use doge_lucky_mining.Block.{Block, serialize_header}
use doge_lucky_mining.Compact.{bits_to_target, bytes_be}

-- The settings of `ScryptMiner` that the search reads.
pub record ScryptMiner : Type 0 where
  pub max_hashes : ℕ
  pub max_hashes_this_round : ℕ
  pub thread_count : ℕ
  pub nonce_search_mode : Text
  pub use_stride : Bool

unfoldable pub effective_max_hashes : ScryptMiner → ℕ
effective_max_hashes m =
    if ltb 0 m.max_hashes_this_round then m.max_hashes_this_round else m.max_hashes

-- `targetBytesLE`: the target in 32 bytes, lowest first.
unfoldable pub target_bytes_le : ℕ → Option Bytes
target_bytes_le target =
    let b = bytes_be target in
    if ltb 32 (length b)
    then none
    else some (reverse_bytes_in_place (replicate (32 - length b) 0 ++ b))

-- `precomputeHeaderBase`: the header without its last four bytes.
unfoldable pub precompute_header_base : Block → Bytes
precompute_header_base block =
    let header = serialize_header (record block { nonce = 0 }) in take (length header - 4) header

-- What the search returns: nonce, hash in display order, whether it was found, and attempts.
pub record MiningResult : Type 0 where
  pub nonce : ℕ
  pub hash : Bytes
  pub found : Bool
  pub hash_count : ℕ

abbrev pub nonce_at : ℕ → ℕ → ℕ
nonce_at start i = (start + i) % 2 ^ 32

abbrev pub not_found : ℕ → MiningResult
not_found count = record { nonce = 0; hash = []; found = false; hash_count = count }

module _ (scrypt : Bytes → Bytes) where
  -- The hash that the search computes for a nonce.
  abbrev pub hash_of_nonce : Bytes → ℕ → Bytes
  hash_of_nonce base nonce = scrypt (base ++ put_le 4 nonce)

  -- The loop, with `left` attempts left after `i`.
  unfoldable pub search : Bytes → Bytes → ℕ → ℕ → ℕ → MiningResult
  search base target start zero i = not_found i
  search base target start (suc left) i =
      elim (hash_meets_target_le (hash_of_nonce base (nonce_at start i)) target) [
        | true ↦ record {
          nonce = nonce_at start i;
          hash = reverse_bytes_in_place (hash_of_nonce base (nonce_at start i));
          found = true;
          hash_count = i + 1;
        }
        | false ↦ search base target start left (i + 1)
      ]

  unfoldable pub mine_with_strategy : ScryptMiner → ℕ → Block → ℕ → Option MiningResult
  mine_with_strategy m start block target = elim (target_bytes_le target) [
    | none ↦ none
    | some t ↦ some (search (precompute_header_base block) t start (effective_max_hashes m) 0)
  ]

pub record PowCheck : Type 0 where
  pub pow_hash_display : Text
  pub meets_target : Bool

pub data PowError : Type 0 where
  header_length invalid_bits : PowError

module _ (scrypt : Bytes → Bytes) where
  display : Bytes → Text
  display h = hash_to_display_hex (reverse_bytes_in_place h)

  -- `verifyBlockPoW`: the check, and the error if there is one.
  unfoldable pub verify_block_pow : Block → Option (PowCheck × Option PowError)
  unfolding display
  verify_block_pow block =
      let header = serialize_header block in
      let hash = scrypt header in
      if length header == 80
      then if bits_to_target block.bits == 0
        then some
            (record { pow_hash_display = display hash; meets_target = false }, some invalid_bits)
        else elim (target_bytes_le (bits_to_target block.bits)) [
          | none ↦ none
          | some t ↦ some (
            record { pow_hash_display = display hash; meets_target = hash_meets_target_le hash t },
            none,
          )
        ]
      else some (record { pow_hash_display = []; meets_target = false }, some header_length)
