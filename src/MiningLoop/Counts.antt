-- ===== src/MiningLoop/Counts.antt =====
-- What the loop counts: the hashes of the current block and of the run.
use doge_lucky_mining.Common.{
  ℕ, ◌+◌, ◌%◌, ◌^◌, ◌&&◌, Option, none, some, [], ltb, ◌==◌, if◌then◌else◌,
}
use doge_lucky_mining.Template.{BlockTemplate}
use doge_lucky_mining.MiningLoop.Submit.{BlockInfo, MiningStats}

abbrev new_block_info : BlockInfo
new_block_info = record { height = 0; target = []; hashes_attempted = 0 }

-- The block that the statistics had, or a new one.
unfoldable pub block_info : Option BlockInfo → BlockInfo
block_info none = new_block_info
block_info (some b) = b

-- Before a search: the hashes start at 0 again when the height changes.
unfoldable pub begin_block : BlockTemplate → MiningStats → MiningStats
begin_block t s =
    let b = block_info s.current_block in
    record s {
      current_block = some (record {
        height = t.height;
        target = t.target;
        hashes_attempted = if b.height == t.height then b.hashes_attempted else 0;
      });
    }

-- The counts, and `hashCounter`, after a search that took a time in nanoseconds.
unfoldable pub add_hashes : ℕ → Option BlockInfo → Option BlockInfo
add_hashes attempted none = none
add_hashes attempted (some b) =
    some (record b { hashes_attempted = (b.hashes_attempted + attempted) % 2 ^ 64 })

unfoldable pub count_hashes : ℕ → ℕ → MiningStats × ℕ → MiningStats × ℕ
count_hashes attempted elapsed (s, hash_counter) =
    if ltb 0 attempted && ltb 0 elapsed
    then (
      record s {
        total_hashes = (s.total_hashes + attempted) % 2 ^ 64;
        current_block = add_hashes attempted s.current_block;
      },
      0,
    )
    else (s, (hash_counter + attempted) % 2 ^ 64)
