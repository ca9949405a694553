-- ===== src/Monitor.antt =====
-- payment_monitor_p2p.go: whether the blocks that the miner submitted stand in the chain.
-- The client is an argument: the monitor only reads its tip and its history. A time is a number of
-- milliseconds. The lock, the ticker and the log are left out; `stop` keeps the flag that guards
-- the channel's one close.
pub mod Settle
pub mod Verdict
pub mod Track
pub mod Single
use doge_lucky_mining.Common.{
  ℕ, ◌+◌, ◌-◌, ◌*◌, ◌%◌, ◌^◌, Bool, true, false, Option, none, some, List, [], ◌∷◌, ◌++◌, length,
  drop, ltb, leb, ◌==◌, if◌then◌else◌, bytes_equal,
}
use doge_lucky_mining.Hex.{Text}
use doge_lucky_mining.P2P.{P2PClient}

pub record MinedBlockInfo : Type 0 where
  pub height : ℕ
  pub hash : Text
  pub submit_time : ℕ
  pub checked : Bool
  pub confirmed : Bool
  pub payment_seen : Bool

pub record P2PPayment : Type 0 where
  pub block_height : ℕ
  pub block_hash : Text
  pub value : ℕ
  pub time : ℕ
  pub confirmed : Bool

pub record P2PPaymentMonitor : Type 0 where
  pub payout_address : Text
  pub network : Text
  pub submitted_blocks : List MinedBlockInfo
  pub payments : List P2PPayment
  pub last_check_height : ℕ
  pub stopped : Bool

-- `NewP2PPaymentMonitor`
unfoldable pub new_p2p_payment_monitor : Text → Text → P2PPaymentMonitor
new_p2p_payment_monitor payout_address network = record {
  payout_address = payout_address;
  network = network;
  submitted_blocks = [];
  payments = [];
  last_check_height = 0;
  stopped = false;
}

unfoldable pub stop : P2PPaymentMonitor → P2PPaymentMonitor
stop pm = record pm { stopped = true }

-- The slice that keeps the last 100.
unfoldable pub keep_last : List MinedBlockInfo → List MinedBlockInfo
keep_last bs = if ltb 100 (length bs) then drop (length bs - 100) bs else bs

unfoldable pub track_submitted_block : ℕ → ℕ → Text → P2PPaymentMonitor → P2PPaymentMonitor
track_submitted_block now height hash pm = record pm {
  submitted_blocks = keep_last (
      pm.submitted_blocks
      ++ (record {
        height = height;
        hash = hash;
        submit_time = now;
        checked = false;
        confirmed = false;
        payment_seen = false;
      }
          ∷ []));
}

-- `BlockRewardForHeight` of template_builder.go: both branches return 10,000 DOGE.
unfoldable pub block_reward_for_height : ℕ → ℕ
block_reward_for_height height = if leb 600001 height then 1000000000000 else 1000000000000

-- `p.tipHistory[height]`: the empty text if there is no entry.
unfoldable pub history_get : ℕ → List (ℕ × Text) → Text
history_get h [] = []
history_get h ((k, t) ∷ m) = if k == h then t else history_get h m

unfoldable pub get_block_hash_at_height : ℕ → P2PClient → Text
get_block_hash_at_height height p = history_get height p.tip_history

-- The end of a round, for a block at whose height the history has the hash `network_hash`.
unfoldable pub settle : Text → MinedBlockInfo → List P2PPayment → MinedBlockInfo × List P2PPayment
settle network_hash b payments =
    if bytes_equal network_hash b.hash
    then (
      record b { checked = true; confirmed = true; payment_seen = true },
      payments
          ++ (record {
            block_height = b.height;
            block_hash = b.hash;
            value = block_reward_for_height b.height;
            time = b.submit_time;
            confirmed = true;
          }
              ∷ []),
    )
    else (record b { checked = true; confirmed = false }, payments)

unfoldable pub settle_known :
    Text → MinedBlockInfo → List P2PPayment → MinedBlockInfo × List P2PPayment
settle_known [] b payments = (b, payments)
settle_known (c ∷ cs) b payments = settle (c ∷ cs) b payments

-- A round of the loop of `CheckForPayments`.
unfoldable pub check_block :
    ℕ → P2PClient → MinedBlockInfo → List P2PPayment → MinedBlockInfo × List P2PPayment
unfolding settle_known
check_block tip_height p b payments =
    if b.checked
    then (b, payments)
    else if ltb tip_height (b.height + 2)
    then (b, payments)
    else settle_known (get_block_hash_at_height b.height p) b payments

unfoldable pub check_blocks :
    ℕ → P2PClient → List MinedBlockInfo → List P2PPayment → List MinedBlockInfo × List P2PPayment
check_blocks tip_height p [] payments = ([], payments)
check_blocks tip_height p (b ∷ bs) payments =
    let (b', paid) = check_block tip_height p b payments in
    let (bs', paid') = check_blocks tip_height p bs paid in (b' ∷ bs', paid')

unfoldable pub check_at : ℕ → P2PClient → P2PPaymentMonitor → P2PPaymentMonitor
check_at tip_height p pm =
    let out = check_blocks tip_height p pm.submitted_blocks pm.payments in
    record pm { submitted_blocks = out.0; payments = out.1; last_check_height = tip_height }

-- `CheckForPayments`, which has no error. A client that is nil, or that has no tip, changes nothing.
unfoldable pub check_for_payments : Option P2PClient → P2PPaymentMonitor → P2PPaymentMonitor
check_for_payments none pm = pm
check_for_payments (some p) pm = elim p.best_header [
  | none ↦ pm
  | some tip ↦ check_at tip.height p pm
]

-- The counters of `GetStats`, as the loop over the blocks adds them up.
unfoldable pub count_confirmed : List MinedBlockInfo → ℕ
count_confirmed [] = 0
count_confirmed (b ∷ bs) =
    let rest = count_confirmed bs in
    if b.checked then if b.confirmed then rest + 1 else rest else rest

unfoldable pub count_orphaned : List MinedBlockInfo → ℕ
count_orphaned [] = 0
count_orphaned (b ∷ bs) =
    let rest = count_orphaned bs in
    if b.checked then if b.confirmed then rest else rest + 1 else rest

unfoldable pub count_pending : List MinedBlockInfo → ℕ
count_pending [] = 0
count_pending (b ∷ bs) = let rest = count_pending bs in if b.checked then rest else rest + 1

-- `totalPaid`, an `int64`, as its bit pattern.
unfoldable pub total_value : List P2PPayment → ℕ
total_value [] = 0
total_value (p ∷ ps) = (p.value + total_value ps) % 2 ^ 64

unfoldable pub get_recent_payments : ℕ → List P2PPayment → List P2PPayment
get_recent_payments n ps = if leb (length ps) n then ps else drop (length ps - n) ps

pub record P2PMonitorStats : Type 0 where
  pub total_submitted : ℕ
  pub confirmed : ℕ
  pub orphaned : ℕ
  pub pending : ℕ
  pub total_paid : ℕ
  pub payment_count : ℕ
  pub last_check_height : ℕ
  pub recent_payments : List P2PPayment

unfoldable pub get_stats : P2PPaymentMonitor → P2PMonitorStats
get_stats pm = record {
  total_submitted = length pm.submitted_blocks;
  confirmed = count_confirmed pm.submitted_blocks;
  orphaned = count_orphaned pm.submitted_blocks;
  pending = count_pending pm.submitted_blocks;
  total_paid = total_value pm.payments;
  payment_count = length pm.payments;
  last_check_height = pm.last_check_height;
  recent_payments = get_recent_payments 10 pm.payments;
}
