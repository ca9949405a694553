-- ===== src/Tests/Payments.antt =====
-- The payment monitor at concrete inputs.
use doge_lucky_mining.Common.{◌≡◌, refl, some, List, [], ◌++◌}
use doge_lucky_mining.Hex.{codes, encode, hex_digit}
use doge_lucky_mining.HashCompare.{hash_to_display_hex, reverse_bytes_in_place, reverse_rounds}
use doge_lucky_mining.Block.{BlockHeader}
use doge_lucky_mining.P2P.{P2PClient}
use doge_lucky_mining.P2P.Headers.{record_history, put_history}
use doge_lucky_mining.Monitor.{
  MinedBlockInfo, P2PPayment, P2PPaymentMonitor, check_at, check_blocks, check_block,
  get_block_hash_at_height, history_get, settle, settle_known, keep_last, new_p2p_payment_monitor,
  track_submitted_block, check_for_payments, get_stats,
}
use doge_lucky_mining.Monitor.Verdict.{AllJudged, check_for_payments-AllJudged}
use doge_lucky_mining.Tests.Data.{a_client, first_header, second_header}

abbrev a_monitor : P2PPaymentMonitor
a_monitor =
    track_submitted_block 7 1 (hash_to_display_hex first_header.hash)
      (new_p2p_payment_monitor [] (codes "mainnet"))

-- Two blocks above the submitted one.
abbrev tip_header : BlockHeader
tip_header = record second_header { height = 3 }

abbrev synced : P2PClient
synced = record a_client {
  best_header = some tip_header;
  tip_history = record_history first_header [];
}

-- The block is confirmed.
one_paid : (get_stats (check_for_payments (some synced) a_monitor)).payment_count ≡ 1
unfolding get_stats check_for_payments check_at check_blocks check_block get_block_hash_at_height
    history_get settle record_history put_history track_submitted_block new_p2p_payment_monitor
    keep_last settle_known hash_to_display_hex encode reverse_bytes_in_place reverse_rounds
    hex_digit
one_paid = refl

check_for_payments-AllJudged_example :
    (bs : List MinedBlockInfo) × (new : List P2PPayment) × AllJudged 3 synced.tip_history
      a_monitor.submitted_blocks bs new
    × (check_for_payments (some synced) a_monitor ≡ record a_monitor {
      submitted_blocks = bs;
      payments = a_monitor.payments ++ new;
      last_check_height = 3;
    })
check_for_payments-AllJudged_example = check_for_payments-AllJudged synced a_monitor tip_header refl
