-- ===== src/P2P/Checkpoint.antt =====
-- `SetStartCheckpoint` and `SetStartCheckpointByID`.
use doge_lucky_mining.Common.{ℕ, true, false, Option, none, some, [], ◌∷◌, replicate}
use doge_lucky_mining.Hex.{Text}
use doge_lucky_mining.HashCompare.{hex_to_32_bytes}
use doge_lucky_mining.P2P.{P2PClient, map_get}

pub data CheckpointError : Type 0 where
  invalid_checkpoint_hash unknown_checkpoint : CheckpointError

unfoldable pub clear_start_checkpoint : P2PClient → P2PClient
clear_start_checkpoint p = record p {
  has_start_checkpoint = false;
  start_locator_hash = replicate 32 0;
  start_height = 0;
  best_header = none;
  best_height = 0;
  locator_hashes = [];
  tip_parent_timestamp = 0;
  last_non_min_difficulty_bits = 0;
}

-- The new state, and the error if there is one.
unfoldable pub set_start_checkpoint : Text → ℕ → P2PClient → P2PClient × Option CheckpointError
set_start_checkpoint [] height p = (clear_start_checkpoint p, none)
set_start_checkpoint (c ∷ cs) height p = elim (hex_to_32_bytes (c ∷ cs)) [
  | none ↦ (p, some invalid_checkpoint_hash)
  | some h ↦ (
    record p { start_locator_hash = h; start_height = height; has_start_checkpoint = true },
    none,
  )
]

unfoldable pub set_start_checkpoint_by_id : Text → P2PClient → P2PClient × Option CheckpointError
set_start_checkpoint_by_id id p = elim (map_get id p.checkpoints) [
  | none ↦ (p, some unknown_checkpoint)
  | some cp ↦ set_start_checkpoint cp.hash cp.height p
]
