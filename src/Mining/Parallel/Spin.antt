-- ===== src/Mining/Parallel/Spin.antt =====
-- A goroutine whose range of nonces wraps around 2 ^ 32 makes no progress.
use doge_lucky_mining.Common.{ℕ, ◌+◌, ◌^◌, ◌≤◌, ◌<◌, ◌≡◌, ◌⊎◌, true, some, List, get_elem?}
use doge_lucky_mining.Bytes.{Bytes}
use doge_lucky_mining.Block.{Block}
use doge_lucky_mining.Mining.Worker.{ranged, outer, inner, Worker, Shared, Job}

-- A worker on a range that wraps around, at its start or with the empty batch that it made of it.
record Spins (w : Worker) : Type 0 where
  wraps : w.end_nonce ≤ w.start_nonce
  room : w.start_nonce + 1000 < 2 ^ 32
  unused : w.local_hash_count ≡ 0
  waits :
      ((w.stage ≡ outer) × (w.current_nonce ≡ w.start_nonce))
      ⊎ (w.stage ≡ inner w.start_nonce w.end_nonce)

module _ (scrypt : Bytes → Bytes) (j : Job) (mode : j.mode ≡ ranged)
    (max : 0 < j.max_local_hashes) where
  abbrev Stuck : ℕ → Shared × List Worker → Type 0
  Stuck id state =
      (state.0.found ≡ true) ⊎ ((w : Worker) × (get_elem? state.1 id ≡ some w) × Spins w)
