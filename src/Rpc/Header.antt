-- ===== src/Rpc/Header.antt =====
-- `ParseBlockHeaderFromRPC` of headers.go, and `GetTipHeader` and `GetBlockTemplate` of rpc.go.
-- `strconv.ParseUint` is written out for base 16 and 32 bits.
use mathlib.Core.Option
use doge_lucky_mining.Common.{
  ℕ, ◌+◌, ◌*◌, ◌^◌, true, Option, none, some, [], ◌∷◌, Result, ok, err, length, take, drop,
  replicate, ltb, ◌==◌, if◌then◌else◌,
}
use doge_lucky_mining.Bytes.{Bytes, get_le}
use doge_lucky_mining.Hex
use doge_lucky_mining.Hex.{Text, codes, hex_value}
use doge_lucky_mining.HashCompare.{hex_to_32_bytes, reverse_bytes}
use doge_lucky_mining.Block.{BlockHeader}
use doge_lucky_mining.Template.{BlockTemplate}
use doge_lucky_mining.Rpc.{
  Float64, Json, object, string, Fields, Node, CallError, unexpected_type, bad_header_hex,
  header_too_short, bad_json, str, flag, template_request, get_field, as_string, as_number,
  as_object, call, get_block_count, get_block_hash,
}

-- The value of a text of hexadecimal digits, after a value; `none` for another character.
unfoldable pub hex_number : ℕ → Text → Option ℕ
hex_number n [] = some n
hex_number n (c ∷ cs) = elim (hex_value c) [ none ↦ none | some d ↦ hex_number (n * 16 + d) cs ]

-- `strconv.ParseUint(s, 16, 32)`
unfoldable pub parse_uint_32 : Text → Option ℕ
parse_uint_32 [] = none
parse_uint_32 (c ∷ cs) = elim (hex_number 0 (c ∷ cs)) [
  | none ↦ none
  | some n ↦ if ltb n (2 ^ 32) then some n else none
]

-- A header with nothing but its height.
abbrev pub blank_header : ℕ → BlockHeader
blank_header height = record {
  version = 0;
  prev_block = replicate 32 0;
  merkle_root = replicate 32 0;
  timestamp = 0;
  bits = 0;
  nonce = 0;
  height = height;
  hash = replicate 32 0;
}

-- `header.Hash`: the bytes of the text in reverse, zeros if it is no text of 32 bytes.
unfoldable pub header_hash : Text → Bytes
header_hash block_hash = elim (Hex.decode block_hash) [
  | none ↦ replicate 32 0
  | some b ↦ if length b == 32 then reverse_bytes b else replicate 32 0
]

-- The header in its binary form, with at least 80 bytes.
unfoldable pub binary_header : Text → ℕ → Bytes → BlockHeader
binary_header block_hash height b = record {
  version = get_le (take 4 b);
  prev_block = reverse_bytes (take 32 (drop 4 b));
  merkle_root = reverse_bytes (take 32 (drop 36 b));
  timestamp = get_le (take 4 (drop 68 b));
  bits = get_le (take 4 (drop 72 b));
  nonce = get_le (take 4 (drop 76 b));
  height = height;
  hash = header_hash block_hash;
}

unfoldable pub parse_binary : Text → ℕ → Text → Result CallError BlockHeader
parse_binary block_hash height t = elim (Hex.decode t) [
  | none ↦ err bad_header_hex
  | some b ↦
      if ltb (length b) 80 then err header_too_short else ok (binary_header block_hash height b)
]

-- A hash of the object, zeros if it is not there or no text of 32 bytes.
unfoldable pub hash_field : Option Text → Bytes
hash_field none = replicate 32 0
hash_field (some t) = elim (hex_to_32_bytes t) [ none ↦ replicate 32 0 | some h ↦ h ]

-- The bits, which are a text or a number.
unfoldable pub bits_field : Option Text → Option ℕ → ℕ
bits_field (some t) n = elim (parse_uint_32 t) [ none ↦ 0 | some v ↦ v ]
bits_field none (some n) = n
bits_field none none = 0

unfoldable pub number_or_zero : Option ℕ → ℕ
number_or_zero none = 0
number_or_zero (some n) = n

or_zero_byte : Bytes → Bytes
or_zero_byte [] = 0 ∷ []
or_zero_byte (b ∷ bs) = b ∷ bs

unfoldable pub flags_of : Option Text → Bytes
unfolding or_zero_byte
flags_of none = 0 ∷ []
flags_of (some flags) = elim (Hex.decode flags) [ none ↦ 0 ∷ [] | some b ↦ or_zero_byte b ]

module _ {F : Float64} where
  unfoldable pub verbose_header : Text → ℕ → Fields F → BlockHeader
  verbose_header block_hash height m = record {
    version = number_or_zero (Option.map F.to_int32 (as_number (get_field (codes "version") m)));
    prev_block = hash_field (as_string (get_field (codes "previousblockhash") m));
    merkle_root = hash_field (as_string (get_field (codes "merkleroot") m));
    timestamp = number_or_zero (Option.map F.to_uint32 (as_number (get_field (codes "time") m)));
    bits =
        bits_field (as_string (get_field (codes "bits") m))
          (Option.map F.to_uint32 (as_number (get_field (codes "bits") m)));
    nonce = number_or_zero (Option.map F.to_uint32 (as_number (get_field (codes "nonce") m)));
    height = height;
    hash = header_hash block_hash;
  }

  unfoldable pub parse_header_result : Text → ℕ → Json F → Result CallError BlockHeader
  parse_header_result block_hash height (object m) = ok (verbose_header block_hash height m)
  parse_header_result block_hash height (string t) = parse_binary block_hash height t
  parse_header_result block_hash height _ = err unexpected_type

  -- The request for a header, again without the flag if the first one fails.
  unfoldable pub call_header : Node F → Text → Result CallError (Json F)
  call_header node block_hash =
      let again = call node (codes "getblockheader") (str block_hash ∷ []) in
      elim (call node (codes "getblockheader") (str block_hash ∷ flag true ∷ [])) [
        | ok result ↦ ok result
        | err e ↦ again
      ]

  -- `ParseBlockHeaderFromRPC`
  unfoldable pub parse_block_header_from_rpc : Node F → Text → ℕ → Result CallError BlockHeader
  parse_block_header_from_rpc node block_hash height = elim (call_header node block_hash) [
    | err e ↦ err e
    | ok result ↦ parse_header_result block_hash height result
  ]

  -- `GetBlockTemplate`: the flags of the node are the script, or a zero byte if there are none.
  unfoldable pub coinbase_flags : Json F → Bytes
  coinbase_flags (object m) = elim (as_object (get_field (codes "coinbaseaux") m)) [
    | none ↦ 0 ∷ []
    | some aux ↦ flags_of (as_string (get_field (codes "flags") aux))
  ]
  coinbase_flags _ = []

  unfoldable pub get_block_template : Node F → Result CallError BlockTemplate
  get_block_template node = elim (call node (codes "getblocktemplate") (template_request ∷ [])) [
    | err e ↦ err e
    | ok result ↦ elim (node.unmarshal_template result) [
      | none ↦ err bad_json
      | some t ↦ ok (record t { coinbase_script = coinbase_flags result })
    ]
  ]

  -- `GetTipHeader`
  unfoldable pub get_tip_header : Node F → Result CallError (ℕ × BlockHeader)
  get_tip_header node = elim (get_block_count node) [
    | err e ↦ err e
    | ok height ↦ elim (get_block_hash node height) [
      | err e ↦ err e
      | ok hash ↦ elim (parse_block_header_from_rpc node hash height) [
        | err e ↦ err e
        | ok header ↦ ok (height, header)
      ]
    ]
  ]
