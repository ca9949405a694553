-- ===== src/Tests/Rounds.antt =====
-- The rounds of the mining loop, and the start of sync, at concrete inputs.
use doge_lucky_mining.Common.{ℕ, ◌*◌, ◌≡◌, refl, arith, false, none, some, List, [], ◌∷◌}
use doge_lucky_mining.Hex.{codes}
use doge_lucky_mining.Hex
use doge_lucky_mining.HashCompare.{reverse_bytes_in_place}
use doge_lucky_mining.P2P.Locator.{locator}
use doge_lucky_mining.MiningLoop.Cap.{Tuning, Seen, tip_advance, tune_all}
use doge_lucky_mining.MiningLoop.Cap.Bounds.{IsTuned, Chased, tune_all_floor}
use doge_lucky_mining.MiningLoop.Resume.{SyncConfig, Disk, SyncState, save_tip, choose_start}
use doge_lucky_mining.MiningLoop.Resume.RoundTrip.{is_checkpoint, choose_start-save_tip}
use doge_lucky_mining.Tests.Data.{a_client, first_header}
use doge_lucky_mining.Tests.Miner.{first_hash-IsHash}

-- Three blocks came in during the round that ends at a time in seconds.
abbrev seen_at : ℕ → Seen
seen_at s = record {
  template_height = 10;
  tip_height = some 12;
  hashes_attempted = 40000;
  round_elapsed = 300000000;
  headers_age = 0;
  now = s * 1000000000;
  adjusted_at = s * 1000000000;
}

abbrev six_rounds : List Seen
six_rounds = seen_at 1 ∷ seen_at 2 ∷ seen_at 3 ∷ seen_at 4 ∷ seen_at 5 ∷ seen_at 6 ∷ []

abbrev at_most : Tuning
at_most = record { round_cap = 40000; stable_rounds = 0; last_cap_adjust = none }

at_most-IsTuned : IsTuned at_most
unfolding IsTuned
at_most-IsTuned = (omega arith, omega arith, omega arith)

six_rounds-Chased : Chased none six_rounds
unfolding Chased tip_advance
six_rounds-Chased = (
  omega arith,
  (
    omega arith,
    omega arith,
    (
      omega arith,
      omega arith,
      (omega arith, omega arith, (omega arith, omega arith, (omega arith, omega arith, tt))),
    ),
  ),
)

tune_all_floor_example : (tune_all six_rounds at_most).round_cap ≡ 12000
tune_all_floor_example =
    tune_all_floor six_rounds at_most at_most-IsTuned (omega arith) six_rounds-Chased

abbrev a_sync_config : SyncConfig
a_sync_config = record {
  network = codes "testnet";
  p2p_checkpoint = [];
  p2p_peer_override = [];
  p2p_peer_override_mainnet = [];
  p2p_peer_override_testnet = [];
}

abbrev no_files : Disk
no_files = record { chain_tip = none; chain_tip_testnet = none }

abbrev restarted : SyncState
restarted = record {
  force_genesis_next = false;
  disk =
      save_tip 1 (Hex.encode (reverse_bytes_in_place first_header.hash)) (codes "testnet")
        0x1e0ffff0 no_files;
  client = a_client;
}

choose_start-save_tip_example :
    (locator (choose_start a_sync_config restarted).client ≡ first_header.hash ∷ [])
    × ((choose_start a_sync_config restarted).client.start_height ≡ 1)
choose_start-save_tip_example =
    choose_start-save_tip a_sync_config restarted first_header 0x1e0ffff0 no_files first_hash-IsHash
      refl refl refl refl (unfold is_checkpoint in refl) refl
