-- ===== src/Tests/Miner.antt =====
-- Addresses, templates and the search for a nonce at concrete inputs.
use doge_lucky_mining.Common.{
  ◌≡◌, refl, ◌↔◌, arith, [], ◌∷◌, ◌++◌, ok, replicate, ltb, if◌then◌else◌,
}
use doge_lucky_mining.Bytes.{Bytes, IsHash}
use doge_lucky_mining.Hex.{codes}
use doge_lucky_mining.Compact.{bytes_be}
use doge_lucky_mining.Address.{
  decode_dogecoin_address, base58_decode_check, base58_decode, base58_value, index_from,
  base58_alphabet, leading_ones, split_checksum, checksum_differs, script_of_payload,
  create_p2pkh_script,
}
use doge_lucky_mining.Address.Laws.{Pays, decode_dogecoin_address_iff}
use doge_lucky_mining.Block.{Block}
use doge_lucky_mining.Compact.{bits_to_target, bits_to_target_hex}
use doge_lucky_mining.Template.Target.{mine_block-bits_to_target_hex}
use doge_lucky_mining.Mining.{mine_with_strategy}
use doge_lucky_mining.Mining.Parallel.{mine_block, mine_parallel, of_search}
use doge_lucky_mining.Tests.Codec.{All-bytes}
use doge_lucky_mining.Tests.Data.{a_block, a_miner, first_header}

-- A digest whose bytes are all zero.
abbrev zero_digest : Bytes → Bytes
zero_digest x = replicate 32 0

abbrev an_address : Bytes
an_address = codes "D5ERdEN1gsouFSs7zsq7VYJxyWP6YUB7QK"

abbrev hash_of_20 : Bytes
hash_of_20 =
    1 ∷ 2 ∷ 3 ∷ 4 ∷ 5 ∷ 6 ∷ 7 ∷ 8 ∷ 9 ∷ 10 ∷ 11 ∷ 12 ∷ 13 ∷ 14 ∷ 15 ∷ 16 ∷ 17 ∷ 18 ∷ 19 ∷ 20 ∷ []

-- The address is accepted.
accepted_address :
    decode_dogecoin_address zero_digest an_address
    ≡ ok (0x76 ∷ 0xA9 ∷ 0x14 ∷ (hash_of_20 ++ (0x88 ∷ 0xAC ∷ [])))
unfolding decode_dogecoin_address base58_decode_check base58_decode base58_value index_from
    base58_alphabet leading_ones split_checksum checksum_differs script_of_payload
    create_p2pkh_script bytes_be
accepted_address = refl

decode_dogecoin_address_iff_example :
    (decode_dogecoin_address zero_digest an_address
      ≡ ok (0x76 ∷ 0xA9 ∷ 0x14 ∷ (hash_of_20 ++ (0x88 ∷ 0xAC ∷ []))))
    ↔ Pays zero_digest an_address (0x76 ∷ 0xA9 ∷ 0x14 ∷ (hash_of_20 ++ (0x88 ∷ 0xAC ∷ [])))
decode_dogecoin_address_iff_example =
    decode_dogecoin_address_iff zero_digest an_address
      (0x76 ∷ 0xA9 ∷ 0x14 ∷ (hash_of_20 ++ (0x88 ∷ 0xAC ∷ []))) (λ x. refl)

pub first_hash-IsHash : IsHash first_header.hash
first_hash-IsHash =
    (refl, (omega arith, (omega arith, (omega arith, (omega arith, All-bytes 28 9 (omega arith))))))

mine_block-bits_to_target_hex_example :
    mine_block zero_digest a_miner 5 (0 ∷ []) a_block (bits_to_target_hex 0x1e0ffff0) ≡ (
      if ltb 1 2
      then mine_parallel zero_digest a_miner 5 (0 ∷ []) a_block (bits_to_target 0x1e0ffff0)
      else of_search zero_digest
          (mine_with_strategy zero_digest a_miner 5 a_block (bits_to_target 0x1e0ffff0)))
mine_block-bits_to_target_hex_example =
    mine_block-bits_to_target_hex zero_digest a_miner 5 (0 ∷ []) a_block 0x1e0ffff0
      (unfold bits_to_target in omega arith) (unfold bits_to_target in omega arith)
