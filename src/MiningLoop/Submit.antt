-- ===== src/MiningLoop/Submit.antt =====
-- `submitBlock` of main.go, and what the loop does with a find: statistics, the list of submitted
-- blocks, and the payment monitor.
-- `broadcast` is the answer of the peers to `BroadcastBlock`, and `rpc` that of the node, `none` if
-- there is no RPC client; an answer is `none`, or the text of an error. Times are milliseconds.
pub mod Laws
pub mod Orphan
use doge_lucky_mining.Common.{
  ℕ, ◌+◌, ◌-◌, ◌%◌, ◌^◌, Bool, true, false, ◌&&◌, Option, none, some, List, [], ◌∷◌, ◌++◌, length,
  drop, ltb, ◌==◌, if◌then◌else◌, bytes_equal,
}
use doge_lucky_mining.Bytes.{Bytes}
use doge_lucky_mining.Hex
use doge_lucky_mining.Hex.{Text, codes}
use doge_lucky_mining.HashCompare.{hash_to_display_hex}
use doge_lucky_mining.Block.{Block, BlockHeader, Transaction, TxOutput, serialize_block}
use doge_lucky_mining.Mining.{MiningResult, PowError, PowCheck, verify_block_pow}
use doge_lucky_mining.Monitor.{P2PPaymentMonitor, track_submitted_block}
use doge_lucky_mining.Template.{BlockTemplate}
use doge_lucky_mining.MiningLoop.Solve.{confirm, is_discarded, is_stale}

pub data SubmitError : Type 0 where
  no_transactions no_outputs script_too_short does_not_meet_target no_rpc_client : SubmitError
  pow_failed : PowError → SubmitError
  broadcast_failed rpc_failed : Text → SubmitError

pub data Submission : Type 0 where
  panicked relayed : Submission
  refused : SubmitError → Submission

-- The checks of the transactions.
unfoldable pub check_outputs : List TxOutput → Option SubmitError
check_outputs [] = some no_outputs
check_outputs (o ∷ os) = if ltb (length o.script_pub_key) 5 then some script_too_short else none

unfoldable pub check_payout : List Transaction → Option SubmitError
check_payout [] = some no_transactions
check_payout (tx ∷ txs) = check_outputs tx.outputs

-- The answer of the peers to a block that passed the check of its proof of work.
unfoldable pub relay : (Block → Option Text) → Block → Submission
relay broadcast block = elim (broadcast block) [
  | none ↦ relayed
  | some e ↦ refused (broadcast_failed e)
]

unfoldable pub submit_p2p :
    (Block → Option Text) → Option (PowCheck × Option PowError) → Block → Submission
submit_p2p broadcast none block = panicked
submit_p2p broadcast (some (check, some e)) block = refused (pow_failed e)
submit_p2p broadcast (some (check, none)) block = elim check.meets_target [
  | true ↦ relay broadcast block
  | false ↦ refused does_not_meet_target
]

unfoldable pub submit_rpc : Option (Text → Option Text) → Block → Submission
submit_rpc none block = refused no_rpc_client
submit_rpc (some submit) block = elim (submit (Hex.encode (serialize_block block))) [
  | none ↦ relayed
  | some e ↦ refused (rpc_failed e)
]

pub record SubmittedBlock : Type 0 where
  pub height : ℕ
  pub hash : Text
  pub nonce : ℕ
  pub submit_time : ℕ
  pub is_stale : Bool
  pub broadcast_ok : Bool
  pub peer_count : ℕ
  pub error_message : Option SubmitError

-- `CurrentBlock`
pub record BlockInfo : Type 0 where
  pub height : ℕ
  pub target : Text
  pub hashes_attempted : ℕ

pub record MiningStats : Type 0 where
  pub total_hashes : ℕ
  pub blocks_found : ℕ
  pub blocks_accepted : ℕ
  pub blocks_stale : ℕ
  pub current_block : Option BlockInfo

pub record Miner : Type 0 where
  pub connection_mode : Text
  pub network : Text
  pub stats : MiningStats
  pub submitted_blocks : List SubmittedBlock
  pub payment_monitor : Option P2PPaymentMonitor

-- What the outside gives while a find is handled: the cached tip at its two tests, the clock, and the
-- number of peers for a broadcast.
pub record Surroundings : Type 0 where
  pub tip_at_check : Option BlockHeader
  pub tip_at_submit : Option BlockHeader
  pub now : ℕ
  pub broadcast_peers : ℕ

abbrev pub next_u64 : ℕ → ℕ
next_u64 n = (n + 1) % 2 ^ 64

abbrev pub is_p2p : Miner → Bool
is_p2p m = bytes_equal m.connection_mode (codes "p2p")

-- The slice that keeps the last 100.
unfoldable pub keep_last_100 : List SubmittedBlock → List SubmittedBlock
keep_last_100 bs = if ltb 100 (length bs) then drop (length bs - 100) bs else bs

unfoldable pub track : ℕ → ℕ → Text → Option P2PPaymentMonitor → Option P2PPaymentMonitor
track now height hash none = none
track now height hash (some pm) = some (track_submitted_block now height hash pm)

unfoldable pub count_relayed : MiningStats → MiningStats
count_relayed s = record s {
  blocks_found = next_u64 s.blocks_found;
  blocks_accepted = next_u64 s.blocks_accepted;
}

unfoldable pub count_stale : Bool → MiningStats → MiningStats
count_stale stale s = if stale then record s { blocks_stale = next_u64 s.blocks_stale } else s

-- The record of a submission; `failure` is its error.
unfoldable pub record_submission :
    Surroundings → BlockTemplate → MiningResult → Bool → Option SubmitError → Miner → Miner
record_submission around t r stale failure m =
    let hash = hash_to_display_hex r.hash in
    let relayed : Bool = elim failure [ none ↦ true | some e ↦ false ] in
    record m {
      stats = if relayed then count_relayed m.stats else m.stats;
      submitted_blocks = keep_last_100 (
          m.submitted_blocks
          ++ (record {
            height = t.height;
            hash = hash;
            nonce = r.nonce;
            submit_time = around.now;
            is_stale = stale;
            broadcast_ok = relayed;
            peer_count = if relayed && is_p2p m then around.broadcast_peers + 1 else 0;
            error_message = failure;
          }
              ∷ []));
      payment_monitor = track around.now t.height hash m.payment_monitor;
    }

-- The rest of the round, by the result of `submitBlock`.
unfoldable pub after_submission :
    Surroundings → BlockTemplate → MiningResult → Bool → Miner → Submission → Option Miner
after_submission around t r stale m panicked = none
after_submission around t r stale m relayed = some (record_submission around t r stale none m)
after_submission around t r stale m (refused e) =
    some (record_submission around t r stale (some e) m)

module _ (scrypt : Bytes → Bytes) (broadcast : Block → Option Text)
    (rpc : Option (Text → Option Text)) where
  -- `submitBlock`, with the connection mode.
  unfoldable pub submit_block : Text → Block → ℕ → Submission
  submit_block mode block nonce =
      let copy = record block { nonce = nonce } in
      elim (check_payout copy.transactions) [
        | some e ↦ refused e
        | none ↦ elim (bytes_equal mode (codes "p2p")) [
          | true ↦ submit_p2p broadcast (verify_block_pow scrypt copy) copy
          | false ↦ submit_rpc rpc copy
        ]
      ]

  -- A find is submitted, whether its parent is the tip or not.
  unfoldable pub submit_find :
      Surroundings → BlockTemplate → Block → MiningResult → Miner → Option Miner
  submit_find around t block r m =
      let stale = is_p2p m && is_stale around.tip_at_submit t in
      after_submission around t r stale (record m { stats = count_stale stale m.stats })
        (submit_block m.connection_mode block r.nonce)

  -- From the result of a search to the end of the round; `none` is a panic.
  unfoldable pub finish_round :
      Surroundings → BlockTemplate → Block → MiningResult → Miner → Option Miner
  finish_round around t block r m = elim (confirm t.target r) [
    | none ↦ none
    | some false ↦ some m
    | some true ↦ elim (is_p2p m && is_discarded m.network around.tip_at_check t) [
      | true ↦ some m
      | false ↦ submit_find around t block r m
    ]
  ]
