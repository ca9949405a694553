-- ===== src/Mining/Parallel.antt =====
-- `mineParallel` of scrypt.go, the search by several goroutines, and `MineBlock` over both searches.
-- A run is a schedule: the list of the threads in the order in which they make their steps.
pub mod Laws
pub mod Spin
use doge_lucky_mining.Common.{
  ℕ, zero, suc, ◌+◌, ◌-◌, ◌*◌, ◌/◌, ◌%◌, ◌^◌, Bool, true, false, not, ◌&&◌, Option, none, some,
  List, [], ◌∷◌, ◌++◌, length, get_elem?, set, reverse, ltb, leb, ◌==◌, if◌then◌else◌,
}
use doge_lucky_mining.Bytes.{Bytes, get_le}
use doge_lucky_mining.Hex
use doge_lucky_mining.Hex.{Text}
use doge_lucky_mining.HashCompare.{hash_meets_target_le}
use doge_lucky_mining.Block.{Block}
use doge_lucky_mining.Mining.{
  ScryptMiner, MiningResult, not_found, target_bytes_le, precompute_header_base, mine_with_strategy,
}
use doge_lucky_mining.Mining.Worker.{
  Stage, outer, inner, offered, done, Worker, Shared, Job, search_mode, hashes_per_thread,
  workers_from, step,
}

module _ (scrypt : Bytes → Bytes) where
  -- A step of the thread with an id; an id that is out of range is no thread.
  unfoldable pub step_of : Job → ℕ → Shared × List Worker → Shared × List Worker
  step_of j id (s, ws) = elim (get_elem? ws id) [
    | none ↦ (s, ws)
    | some w ↦ let (s', w') = step scrypt j s w in (s', set ws id w')
  ]

  unfoldable pub run : Job → List ℕ → Shared × List Worker → Shared × List Worker
  run j [] state = state
  run j (id ∷ schedule) state = run j schedule (step_of j id state)

abbrev pub is_done : Stage → Bool
is_done outer = false
is_done (inner i bound) = false
is_done (offered nonce) = false
is_done done = true

unfoldable pub all_done : List Worker → Bool
all_done [] = true
all_done (w ∷ ws) = is_done w.stage && all_done ws

-- The loop over the channel: the first result with a nonce other than 0 and a hash that meets the
-- target is returned.
unfoldable pub first_valid : Bytes → List (ℕ × Bytes) → Option (ℕ × Bytes)
first_valid target [] = none
first_valid target ((nonce, hash) ∷ results) =
    if not (nonce == 0) && ltb 0 (length hash) && hash_meets_target_le hash target
    then some (nonce, hash)
    else first_valid target results

-- `MineBlock` panics, is still running after the schedule, or returns.
pub data Mined : Type 0 where
  panicked running : Mined
  returned : MiningResult → Mined

-- The channel is closed when all goroutines are done.
unfoldable pub collect : Bytes → Shared × List Worker → Mined
collect target (s, ws) = elim (first_valid target s.results) [
  | some (nonce, hash) ↦
      returned (record { nonce = nonce; hash = hash; found = true; hash_count = s.total_hashes })
  | none ↦ if all_done ws then returned (not_found s.total_hashes) else running
]

unfoldable pub job_of : ScryptMiner → Block → Bytes → Job
job_of m block target = record {
  header_base = precompute_header_base block;
  target = target;
  max_local_hashes = hashes_per_thread m;
  mode = search_mode m;
}

abbrev pub at_start : ScryptMiner → ℕ → Shared × List Worker
at_start m base =
    (record { found = false; results = []; total_hashes = 0 }, workers_from m base m.thread_count 0)

module _ (scrypt : Bytes → Bytes) where
  unfoldable pub mine_parallel : ScryptMiner → ℕ → List ℕ → Block → ℕ → Mined
  mine_parallel m base schedule block target = elim (target_bytes_le target) [
    | none ↦ panicked
    | some t ↦ collect t (run scrypt (job_of m block t) schedule (at_start m base))
  ]

  unfoldable pub of_search : Option MiningResult → Mined
  of_search none = panicked
  of_search (some r) = returned r

  -- `MineBlock`. A target of 0 counts as 1, and a text that is no hex is no target.
  unfoldable pub mine_block : ScryptMiner → ℕ → List ℕ → Block → Text → Mined
  unfolding of_search
  mine_block m start schedule block target_hex = elim (Hex.decode target_hex) [
    | none ↦ returned (not_found 0)
    | some b ↦
        let value = get_le (reverse b) in
        let target = if value == 0 then 1 else value in
        if ltb 1 m.thread_count
        then mine_parallel m start schedule block target
        else of_search (mine_with_strategy scrypt m start block target)
  ]
