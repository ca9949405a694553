-- ===== src/Rpc/Forms.antt =====
-- The two forms of a header that `ParseBlockHeaderFromRPC` reads.
use mathlib.Core.Option
use doge_lucky_mining.Common.{◌^◌, ◌<◌, ◌≡◌, Option, some}
use doge_lucky_mining.Bytes.{Bytes}
use doge_lucky_mining.Hex.{Text, codes, encode}
use doge_lucky_mining.HashCompare.{reverse_bytes_in_place}
use doge_lucky_mining.Block.{BlockHeader}
use doge_lucky_mining.Rpc.{Float64, Fields, get_field, as_string, as_number}
use doge_lucky_mining.Rpc.Header.{parse_uint_32}

-- The object that the node gives for a header: hashes in display order, numbers, and bits as a text with
-- the highest digit first.
pub record Describes {F : Float64} (h : BlockHeader) (m : Fields F) : Type 0 where
  pub version : Option.map F.to_int32 (as_number (get_field (codes "version") m)) ≡ some h.version
  pub prev_block :
      as_string (get_field (codes "previousblockhash") m)
      ≡ some (encode (reverse_bytes_in_place h.prev_block))
  pub merkle_root :
      as_string (get_field (codes "merkleroot") m)
      ≡ some (encode (reverse_bytes_in_place h.merkle_root))
  pub time : Option.map F.to_uint32 (as_number (get_field (codes "time") m)) ≡ some h.timestamp
  pub bits_text : Text
  pub bits : as_string (get_field (codes "bits") m) ≡ some bits_text
  pub bits_value : parse_uint_32 bits_text ≡ some h.bits
  pub nonce : Option.map F.to_uint32 (as_number (get_field (codes "nonce") m)) ≡ some h.nonce

pub record Is32 (h : BlockHeader) : Type 0 where
  pub version : h.version < 2 ^ 32
  pub timestamp : h.timestamp < 2 ^ 32
  pub bits : h.bits < 2 ^ 32
  pub nonce : h.nonce < 2 ^ 32
