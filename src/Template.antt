-- ===== src/Template.antt =====
-- template_builder.go, `BuildTemplateFromHeader`, and main.go, `createEmptyBlock`: from the tip of the
-- chain to the block whose header is mined.
-- A template's `Difficulty` is a float64 for display and is left out, as are its transactions, which
-- the code ignores. `tip.Version | 0x100` sets bit 8 of the pattern. The miner's state that
-- `createEmptyBlock` changes is its extra nonce, which goes in and comes out.
pub mod Height
pub mod Bits
pub mod Block
pub mod Target
use doge_lucky_mining.Common.{
  ℕ, zero, suc, ◌+◌, ◌-◌, ◌*◌, ◌/◌, ◌%◌, ◌^◌, Bool, true, false, not, ◌&&◌, Option, none, some,
  List, [], ◌∷◌, ◌++◌, Result, ok, err, length, get_or, replicate, leb, ◌==◌, if◌then◌else◌,
  bytes_equal,
}
use doge_lucky_mining.Bytes.{Bytes, put_le, get_le}
use doge_lucky_mining.Hex
use doge_lucky_mining.Hex.{Text, codes}
use doge_lucky_mining.HashCompare.{reverse_bytes_in_place, hex_to_32_bytes}
use doge_lucky_mining.Block.{
  OutPoint, TxInput, TxOutput, Transaction, BlockHeader, Block as BlockData, serialize_tx,
}
use doge_lucky_mining.Compact.{le_digits, bits_to_target_hex}
use doge_lucky_mining.Difficulty.{get_next_work_required_extended}
use doge_lucky_mining.Address.{decode_dogecoin_address}
use doge_lucky_mining.Monitor.{block_reward_for_height}

pub record BlockTemplate : Type 0 where
  pub version : ℕ
  pub previous_block_hash : Text
  pub coinbase_value : ℕ
  pub coinbase_script : Bytes
  pub target : Text
  pub bits : Text
  pub height : ℕ
  pub mintime : ℕ
  pub cur_time : ℕ

-- `version | 0x100`
unfoldable pub set_aux_pow : ℕ → ℕ
set_aux_pow version = if version / 0x100 % 2 == 1 then version else version + 0x100

-- The template for a tip and the bits of the next block.
unfoldable pub template_of : BlockHeader → ℕ → ℕ → BlockTemplate
template_of tip now next_bits = record {
  version = set_aux_pow tip.version;
  previous_block_hash = Hex.encode (reverse_bytes_in_place tip.hash);
  coinbase_value = block_reward_for_height (tip.height + 1);
  coinbase_script = 0 ∷ [];
  target = bits_to_target_hex next_bits;
  bits = Hex.encode (put_le 4 next_bits);
  height = tip.height + 1;
  mintime = tip.timestamp;
  cur_time = now;
}

-- `BuildTemplateFromHeader`; `none` is its error, for a tip that is nil. `now` is `time.Now().Unix()`.
unfoldable pub build_template_from_header :
    Option BlockHeader → ℕ → Text → Option ℕ → ℕ → Option BlockTemplate
unfolding template_of
build_template_from_header none now network last_non_min_bits tip_parent_timestamp = none
build_template_from_header (some tip) now network last_non_min_bits tip_parent_timestamp = some (
    template_of tip now (
      get_next_work_required_extended (some tip) now network last_non_min_bits
        tip_parent_timestamp))

-- The last byte of a list, 0 if there is none.
abbrev pub last_byte : Bytes → ℕ
last_byte [] = 0
last_byte (b ∷ []) = b
last_byte (b ∷ c ∷ bs) = last_byte (c ∷ bs)

-- A zero byte follows if the highest byte has its high bit set.
abbrev pub with_sign : Bytes → Bytes
with_sign bs = if last_byte bs / 0x80 % 2 == 1 then bs ++ (0 ∷ []) else bs

abbrev pub or_zero : Bytes → Bytes
or_zero [] = 0 ∷ []
or_zero (b ∷ bs) = b ∷ bs

-- `heightBytes`: the bytes of the height, lowest first.
unfoldable pub height_bytes : ℕ → Bytes
height_bytes height = or_zero (with_sign (le_digits height height))

-- The push of the height, the extra nonce, and the template's script.
unfoldable pub coinbase_script_of : ℕ → ℕ → Bytes → Bytes
coinbase_script_of height extra_nonce flags =
    (length (height_bytes height) % 256 ∷ height_bytes height) ++ (put_le 4 extra_nonce ++ flags)

pub record Config : Type 0 where
  pub network : Text
  pub payout_addr : Text
  pub payout_addr_testnet : Text
  pub payout_addr_mainnet : Text

is_empty : Text → Bool
is_empty [] = true
is_empty (c ∷ cs) = false

unfoldable pub payout_address : Config → Text
unfolding is_empty
payout_address c =
    if bytes_equal c.network (codes "testnet") && not (is_empty c.payout_addr_testnet)
    then c.payout_addr_testnet
    else if bytes_equal c.network (codes "mainnet") && not (is_empty c.payout_addr_mainnet)
    then c.payout_addr_mainnet
    else c.payout_addr

-- The script that pays to the hash of twenty zeros.
abbrev pub default_script : Bytes
default_script = 0x76 ∷ 0xA9 ∷ 0x14 ∷ (replicate 20 0 ++ (0x88 ∷ 0xAC ∷ []))

-- The extra nonce after a block: it skips 0 when it wraps around.
unfoldable pub next_extra_nonce : ℕ → ℕ
next_extra_nonce n = if (n + 1) % 2 ^ 32 == 0 then 1 else (n + 1) % 2 ^ 32

pub data BlockError : Type 0 where
  bad_previous_hash bad_bits_length bad_bits_hex : BlockError

-- The bits of a template; eight hex digits decode to four bytes.
unfoldable pub template_bits : BlockTemplate → Result BlockError ℕ
template_bits t =
    if not (length t.bits == 8) then err bad_bits_length else elim (Hex.decode t.bits) [
      | none ↦ err bad_bits_hex
      | some b ↦ if not (length b == 4) then err bad_bits_length else ok (get_le b)
    ]

module _ (sha256 : Bytes → Bytes) where
  unfoldable pub payout_script : Text → Bytes
  payout_script [] = default_script
  payout_script (c ∷ cs) = elim (decode_dogecoin_address sha256 (c ∷ cs)) [
    | ok script ↦ script
    | err e ↦ default_script
  ]

  -- `Transaction.GetHash`
  unfoldable pub get_hash : Transaction → Bytes
  get_hash tx = sha256 (sha256 (serialize_tx tx))

  unfoldable pub coinbase_tx : Config → BlockTemplate → ℕ → Transaction
  coinbase_tx config t extra_nonce = record {
    version = 1;
    inputs =
        record {
          previous_output = record { hash = replicate 32 0; index = 0xFFFFFFFF };
          script_sig = coinbase_script_of t.height extra_nonce t.coinbase_script;
          sequence = 0xFFFFFFFF;
        }
        ∷ [];
    outputs =
        record { value = t.coinbase_value; script_pub_key = payout_script (payout_address config) }
        ∷ [];
    lock_time = 0;
  }

  block_of : Config → BlockTemplate → ℕ → Bytes → ℕ → BlockData
  block_of config t extra_nonce prev_block bits = record {
    version = t.version;
    prev_block = prev_block;
    merkle_root = get_hash (coinbase_tx config t extra_nonce);
    timestamp = t.cur_time % 2 ^ 32;
    bits = bits;
    nonce = 0;
    aux_pow = none;
    transactions = coinbase_tx config t extra_nonce ∷ [];
  }

  -- `createEmptyBlock`: the new extra nonce, and the block or an error.
  unfoldable pub create_empty_block : Config → BlockTemplate → ℕ → ℕ × Result BlockError BlockData
  unfolding block_of
  create_empty_block config t extra_nonce = elim (hex_to_32_bytes t.previous_block_hash) [
    | none ↦ (extra_nonce, err bad_previous_hash)
    | some prev_block ↦ elim (template_bits t) [
      | err e ↦ (extra_nonce, err e)
      | ok bits ↦ (next_extra_nonce extra_nonce, ok (block_of config t extra_nonce prev_block bits))
    ]
  ]
