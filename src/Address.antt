-- ===== src/Address.antt =====
-- address.go: from a Dogecoin address to the script that pays to it.
-- An address is a list of character codes; the code compares characters of one byte each. The digest
-- of `crypto/sha256` is the parameter `sha256`.
pub mod Laws
use doge_lucky_mining.Common.{
  ℕ, zero, suc, ◌+◌, ◌-◌, ◌*◌, Bool, true, false, not, ◌&&◌, ◌||◌, Option, none, some, List, [],
  ◌∷◌, ◌++◌, Result, ok, err, length, take, drop, get_or, replicate, ltb, ◌==◌, if◌then◌else◌,
}
use doge_lucky_mining.Bytes.{Bytes}
use doge_lucky_mining.Hex
use doge_lucky_mining.Hex.{Text, codes}
use doge_lucky_mining.Compact.{bytes_be}

pub data AddressError : Type 0 where
  invalid_character too_short invalid_checksum invalid_length unsupported_type no_script :
      AddressError

unfoldable pub base58_alphabet : Text
base58_alphabet = codes "123456789ABCDEFGHJKLMNPQRSTUVWXYZabcdefghijkmnopqrstuvwxyz"

-- The index of a character, counted from `i`.
unfoldable pub index_from : ℕ → ℕ → Text → Option ℕ
index_from i c [] = none
index_from i c (x ∷ xs) = let rest = index_from (i + 1) c xs in if x == c then some i else rest

-- The loop of `base58Decode` over the characters.
unfoldable pub base58_value : ℕ → Text → Option ℕ
base58_value n [] = some n
base58_value n (c ∷ s) = elim (index_from 0 c base58_alphabet) [
  | none ↦ none
  | some i ↦ base58_value (n * 58 + i) s
]

unfoldable pub leading_ones : Text → ℕ
leading_ones [] = 0
leading_ones (c ∷ s) = let rest = leading_ones s in if c == b'1' then rest + 1 else 0

unfoldable pub base58_decode : Text → Option Bytes
base58_decode s = elim (base58_value 0 s) [
  | none ↦ none
  | some n ↦ some (replicate (leading_ones s) 0 ++ bytes_be n)
]

unfoldable pub create_p2pkh_script : Bytes → Option Bytes
create_p2pkh_script hash160 =
    if not (length hash160 == 20)
    then none
    else some (0x76 ∷ 0xA9 ∷ 0x14 ∷ (hash160 ++ (0x88 ∷ 0xAC ∷ [])))

-- `HexToHash160`; `none` is its error.
unfoldable pub hex_to_hash160 : Text → Option Bytes
hex_to_hash160 s = elim (Hex.decode s) [
  | none ↦ none
  | some b ↦ if not (length b == 20) then none else some b
]

script_result : Option Bytes → Result AddressError Bytes
script_result none = err no_script
script_result (some s) = ok s

-- The first four bytes of the digest against the checksum.
unfoldable pub checksum_differs : Bytes → Bytes → Bool
checksum_differs hash checksum =
    not (get_or hash 0 0 == get_or checksum 0 0)
    || not (get_or hash 1 0 == get_or checksum 1 0)
    || not (get_or hash 2 0 == get_or checksum 2 0)
    || not (get_or hash 3 0 == get_or checksum 3 0)

-- What follows the checksum in `DecodeDogecoinAddress`.
unfoldable pub script_of_payload : Bytes → Result AddressError Bytes
unfolding script_result
script_of_payload decoded =
    if ltb (length decoded) 21
    then err too_short
    else if not (get_or decoded 0 0 == 0x1e) && not (get_or decoded 0 0 == 0x71)
    then err unsupported_type
    else script_result (create_p2pkh_script (take 20 (drop 1 decoded)))

module _ (sha256 : Bytes → Bytes) where
  -- What `base58DecodeCheck` does with the decoded bytes.
  unfoldable pub split_checksum : Bytes → Result AddressError Bytes
  split_checksum decoded =
      let payload = take (length decoded - 4) decoded in
      if ltb (length decoded) 5
      then err too_short
      else if checksum_differs (sha256 (sha256 payload)) (drop (length decoded - 4) decoded)
      then err invalid_checksum
      else ok payload

  unfoldable pub base58_decode_check : Text → Result AddressError Bytes
  base58_decode_check s = elim (base58_decode s) [
    | none ↦ err invalid_character
    | some decoded ↦ split_checksum decoded
  ]

  unfoldable pub decode_dogecoin_address : Text → Result AddressError Bytes
  decode_dogecoin_address address =
      if ltb (length address) 26 || ltb 35 (length address)
      then err invalid_length
      else elim (base58_decode_check address) [
        | err e ↦ err e
        | ok decoded ↦ script_of_payload decoded
      ]
