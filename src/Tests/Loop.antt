-- ===== src/Tests/Loop.antt =====
-- The mining loop at concrete inputs.
use doge_lucky_mining.Common.{
  ◌≡◌, ◌↔◌, refl, arith, true, false, Option, none, some, [], ◌∷◌, ◌++◌, replicate, reverse, leb,
}
use doge_lucky_mining.Bytes.{Bytes, IsHash, put_le, get_le}
use doge_lucky_mining.Hex.{Text, codes}
use doge_lucky_mining.HashCompare.{
  hash_meets_target_le, compare_le, reverse_bytes_in_place, reverse_rounds, hash_to_display_hex,
}
use doge_lucky_mining.Block.{Block, Transaction, TxOutput, serialize_header}
use doge_lucky_mining.Compact.{bits_to_target, bits_to_target_hex, bytes_be}
use doge_lucky_mining.P2P.{P2PClient}
use doge_lucky_mining.Mining.{
  MiningResult, effective_max_hashes, target_bytes_le, precompute_header_base, search,
  mine_with_strategy,
}
use doge_lucky_mining.Monitor.{
  P2PPaymentMonitor, new_p2p_payment_monitor, check_for_payments, get_stats, history_get,
  get_block_hash_at_height,
}
use doge_lucky_mining.Template.{BlockTemplate}
use doge_lucky_mining.MiningLoop.Solve.{confirm}
use doge_lucky_mining.MiningLoop.Solve.Confirm.{confirm-mine_with_strategy}
use doge_lucky_mining.MiningLoop.Submit.{Miner, Surroundings, record_submission}
use doge_lucky_mining.MiningLoop.Submit.Orphan.{record_submission-check_for_payments}
use doge_lucky_mining.Tests.Codec.{All-bytes}
use doge_lucky_mining.Tests.Data.{
  hash_of, a_transaction, an_output, a_block, a_miner, a_client, second_header,
}

-- A digest that is a small number, and a large one with its bytes reversed.
abbrev lopsided : Bytes → Bytes
lopsided x = 255 ∷ replicate 31 0

lopsided-IsHash : (x : Bytes) → IsHash (lopsided x)
lopsided-IsHash x = (refl, (omega arith, All-bytes 31 0 (omega arith)))

abbrev a_find : MiningResult
a_find = record { nonce = 5; hash = replicate 31 0 ++ (255 ∷ []); found = true; hash_count = 1 }

found : mine_with_strategy lopsided a_miner 5 a_block (bits_to_target 0x1e0ffff0) ≡ some a_find
unfolding mine_with_strategy target_bytes_le bytes_be reverse_bytes_in_place reverse_rounds search
    bits_to_target effective_max_hashes hash_meets_target_le compare_le precompute_header_base
    serialize_header put_le
found = refl

confirm-mine_with_strategy_example :
    confirm (bits_to_target_hex 0x1e0ffff0) a_find
    ≡ some (
        leb
          (get_le (
            reverse_bytes_in_place
              (lopsided (serialize_header (record a_block { nonce = a_find.nonce })))))
          (bits_to_target 0x1e0ffff0))
confirm-mine_with_strategy_example =
    confirm-mine_with_strategy lopsided a_miner 5 a_block 0x1e0ffff0 a_find lopsided-IsHash
      (unfold bits_to_target in omega arith) (unfold bits_to_target in omega arith) found refl

-- The find is of no use to the loop, though its hash meets the target.
find_is_lost :
    leb
      (get_le (
        reverse_bytes_in_place
          (lopsided (serialize_header (record a_block { nonce = a_find.nonce })))))
      (bits_to_target 0x1e0ffff0)
    ≡ false
unfolding bits_to_target reverse_bytes_in_place reverse_rounds get_le
find_is_lost = refl

abbrev paying_output : TxOutput
paying_output = record an_output { script_pub_key = replicate 5 0x51 }

abbrev paying : Transaction
paying = record a_transaction { outputs = paying_output ∷ [] }

abbrev payable : Block
payable = record a_block { transactions = paying ∷ [] }

abbrev silence : Block → Option Text
silence b = none

abbrev a_template : BlockTemplate
a_template = record {
  version = 0x620104;
  previous_block_hash = [];
  coinbase_value = 1000000000000;
  coinbase_script = 0 ∷ [];
  target = codes "ff";
  bits = codes "f0ff0f1e";
  height = 1;
  mintime = 0;
  cur_time = 1774000000;
}

abbrev a_loop : Miner
a_loop = record {
  connection_mode = codes "p2p";
  network = codes "mainnet";
  stats = record {
    total_hashes = 0;
    blocks_found = 0;
    blocks_accepted = 0;
    blocks_stale = 0;
    current_block = none;
  };
  submitted_blocks = [];
  payment_monitor = some (new_p2p_payment_monitor [] (codes "mainnet"));
}

abbrev quiet : Surroundings
quiet = record { tip_at_check = none; tip_at_submit = none; now = 7; broadcast_peers = 3 }

abbrev sevens : Bytes → Bytes
sevens x = hash_of 7

sevens-IsHash : (x : Bytes) → IsHash (sevens x)
sevens-IsHash x = (refl, All-bytes 32 7 (omega arith))

abbrev a_target : Bytes
a_target = replicate 27 0 ++ (0xf0 ∷ 0xff ∷ 0x0f ∷ 0 ∷ 0 ∷ [])

target_of_bits : target_bytes_le (bits_to_target 0x1e0ffff0) ≡ some a_target
unfolding target_bytes_le bytes_be reverse_bytes_in_place reverse_rounds bits_to_target
target_of_bits = refl

-- A client with the find in its history.
abbrev above : P2PClient
above = record a_client {
  best_header = some (record second_header { height = 3 });
  tip_history = (1, hash_to_display_hex (hash_of 7)) ∷ [];
}

record_submission-check_for_payments_example :
    (pm' : P2PPaymentMonitor) × ((record_submission quiet a_template a_find false none
        a_loop).payment_monitor
      ≡ some pm')
    × (((get_stats (check_for_payments (some above) pm')).confirmed ≡ 1) ↔ (
        lopsided (serialize_header (record a_block { nonce = a_find.nonce }))
        ≡ reverse (hash_of 7)))
record_submission-check_for_payments_example =
    record_submission-check_for_payments lopsided sevens a_miner 5 a_block
      (bits_to_target 0x1e0ffff0) a_target a_find quiet a_template false none a_loop
      (new_p2p_payment_monitor [] (codes "mainnet")) above (record second_header { height = 3 })
      lopsided-IsHash sevens-IsHash target_of_bits found refl refl
      (unfold new_p2p_payment_monitor in refl) refl (omega arith)
      (unfold get_block_hash_at_height history_get in refl)
