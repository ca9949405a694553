-- ===== src/P2P/Relay.antt =====
-- The payloads that p2p.go reads while it relays a block: `parseHeadersCount`, `parseInvForBlock` and
-- `parseRejectPayload`. A count is the `uint64` of the wire; its conversion to an `int` is left out.
pub mod Inv
use doge_lucky_mining.Common.{
  ℕ, zero, suc, ◌+◌, Bool, true, false, not, ◌&&◌, ◌||◌, Option, none, some, List, [], ◌∷◌, Result,
  ok, err, length, ◌==◌, if◌then◌else◌, bytes_equal,
}
use doge_lucky_mining.Bytes.{Bytes}
use doge_lucky_mining.Hex.{Text, codes}
use doge_lucky_mining.Wire.{ReadError, read_var_int, read_le, read_full, read_var_str}

unfoldable pub parse_headers_count : Bytes → Result ReadError ℕ
parse_headers_count payload = elim (read_var_int payload) [ err e ↦ err e | ok (n, r) ↦ ok n ]

pub data InvError : Type 0 where
  bad_expected_hash : InvError
  bad_read : ReadError → InvError

-- A block, a filtered block or a compact block.
unfoldable pub is_block_type : ℕ → Bool
is_block_type t = t == 2 || t == 3 || t == 4

-- The loop over `n` entries: whether one is the block, and the error of a read.
unfoldable pub scan_inv : ℕ → Bytes → Bytes → Bool × Option InvError
scan_inv zero expected r = (false, none)
scan_inv (suc n) expected r = elim (read_le 4 r) [
  | err e ↦ (false, some (bad_read e))
  | ok (inv_type, r') ↦ elim (read_full 32 r') [
    | err e ↦ (false, some (bad_read e))
    | ok (hash, r'') ↦ elim (is_block_type inv_type && bytes_equal hash expected) [
      | true ↦ (true, none)
      | false ↦ scan_inv n expected r''
    ]
  ]
]

-- `parseInvForBlock`: the count, whether the block is there, and the error.
unfoldable pub parse_inv_for_block : Bytes → Bytes → ℕ × Bool × Option InvError
parse_inv_for_block payload expected =
    if not (length expected == 32)
    then (0, false, some bad_expected_hash)
    else elim (read_var_int payload) [
      | err e ↦ (0, false, some (bad_read e))
      | ok (count, r) ↦ let (found, e) = scan_inv count expected r in (count, found, e)
    ]

pub record Reject : Type 0 where
  pub msg_type : Text
  pub code : ℕ
  pub reason : Text
  pub hash : Option Bytes

reject_hash : Text → Bytes → Option Bytes
reject_hash msg_type r =
    if bytes_equal msg_type (codes "block") || bytes_equal msg_type (codes "tx")
    then elim (read_full 32 r) [ ok (hash, rest) ↦ some hash | err e ↦ none ]
    else none

-- `parseRejectPayload`: what it could read, and the error.
unfoldable pub parse_reject_payload : Bytes → Reject × Option ReadError
unfolding reject_hash
parse_reject_payload payload = elim (read_var_str payload) [
  | err e ↦ (record { msg_type = []; code = 0; reason = []; hash = none }, some e)
  | ok (msg_type, r) ↦ elim (read_le 1 r) [
    | err e ↦ (record { msg_type = msg_type; code = 0; reason = []; hash = none }, some e)
    | ok (code, r') ↦ elim (read_var_str r') [
      | err e ↦ (record { msg_type = msg_type; code = code; reason = []; hash = none }, some e)
      | ok (reason, r'') ↦ (
        record {
          msg_type = msg_type;
          code = code;
          reason = reason;
          hash = reject_hash msg_type r'';
        },
        none,
      )
    ]
  ]
]
