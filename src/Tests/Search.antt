-- ===== src/Tests/Search.antt =====
-- The search for a nonce, by one thread and by several, at concrete inputs.
use doge_lucky_mining.Common.{◌≡◌, ◌≢◌, refl, arith, true, none, some, [], ◌∷◌, replicate}
use doge_lucky_mining.Bytes.{Bytes, IsHash, put_le}
use doge_lucky_mining.HashCompare.{
  hash_meets_target_le, compare_le, reverse_bytes_in_place, reverse_rounds,
}
use doge_lucky_mining.Block.{serialize_header}
use doge_lucky_mining.Compact.{bits_to_target, bytes_be}
use doge_lucky_mining.Mining.{
  MiningResult, PowCheck, effective_max_hashes, target_bytes_le, precompute_header_base,
  hash_of_nonce, search, mine_with_strategy, verify_block_pow,
}
use doge_lucky_mining.Mining.Search.{Outcome, mine_with_strategy_lem}
use doge_lucky_mining.Mining.Verify.{mine_with_strategy-verify}
use doge_lucky_mining.Mining.Worker.{
  search_mode, worker_of, workers_from, hashes_per_thread, step, step_outer, step_inner, step_offer,
  goes_on, has_nonces, start_batch, in_batch, try_nonce, nonce_of, nonce_meets,
}
use doge_lucky_mining.Mining.Parallel.{
  returned, mine_parallel, collect, run, step_of, job_of, first_valid,
}
use doge_lucky_mining.Mining.Parallel.Laws.{mine_parallel_found}
use doge_lucky_mining.Tests.Codec.{All-bytes}
use doge_lucky_mining.Tests.Data.{hash_of, a_block, a_miner}

-- Digests that meet every target, and no target.
abbrev easy : Bytes → Bytes
easy x = hash_of 0

abbrev hard : Bytes → Bytes
hard x = hash_of 255

easy-IsHash : (x : Bytes) → IsHash (easy x)
easy-IsHash x = (refl, All-bytes 32 0 (omega arith))

abbrev a_target : Bytes
a_target = 0 ∷ 0 ∷ 1 ∷ replicate 29 0

target_bytes : target_bytes_le 0x10000 ≡ some a_target
unfolding target_bytes_le bytes_be reverse_bytes_in_place reverse_rounds
target_bytes = refl

mine_with_strategy_lem_example :
    (r : MiningResult) × (mine_with_strategy hard a_miner 5 a_block 0x10000 ≡ some r)
    × Outcome hard a_target (precompute_header_base a_block) 5 0 (effective_max_hashes a_miner) r
mine_with_strategy_lem_example =
    mine_with_strategy_lem hard a_miner 5 a_block 0x10000 a_target target_bytes

abbrev a_result : MiningResult
a_result = record { nonce = 5; hash = hash_of 0; found = true; hash_count = 1 }

mined : mine_with_strategy easy a_miner 5 a_block (bits_to_target a_block.bits) ≡ some a_result
unfolding mine_with_strategy target_bytes_le bytes_be reverse_bytes_in_place reverse_rounds search
    bits_to_target effective_max_hashes hash_meets_target_le compare_le precompute_header_base
    serialize_header put_le
mined = refl

mine_with_strategy-verify_example :
    (c : PowCheck) × (verify_block_pow easy (record a_block { nonce = a_result.nonce })
      ≡ some (c, none))
    × (c.meets_target ≡ true)
mine_with_strategy-verify_example =
    mine_with_strategy-verify easy a_miner 5 a_block a_result easy-IsHash refl refl
      (unfold bits_to_target in omega arith) (unfold bits_to_target in omega arith) mined refl

abbrev a_parallel_result : MiningResult
a_parallel_result = record { nonce = 5; hash = hash_of 0; found = true; hash_count = 0 }

-- The first thread takes three steps, and the channel has its result.
mined_in_parallel :
    mine_parallel easy a_miner 5 (0 ∷ 0 ∷ 0 ∷ []) a_block 0x10000 ≡ returned a_parallel_result
unfolding mine_parallel target_bytes_le bytes_be reverse_bytes_in_place reverse_rounds collect run
    step_of job_of first_valid workers_from worker_of hashes_per_thread effective_max_hashes
    search_mode step step_outer step_inner step_offer goes_on has_nonces start_batch in_batch
    try_nonce nonce_of nonce_meets hash_meets_target_le compare_le
mined_in_parallel = refl

mine_parallel_found_example :
    (a_parallel_result.nonce ≢ 0)
    × (hash_meets_target_le (hash_of_nonce easy (precompute_header_base a_block) 5) a_target ≡ true)
    × (hash_of 0 ≡ reverse_bytes_in_place (hash_of_nonce easy (precompute_header_base a_block) 5))
    × (hash_meets_target_le (hash_of 0) a_target ≡ true)
mine_parallel_found_example =
    mine_parallel_found easy a_miner 5 (0 ∷ 0 ∷ 0 ∷ []) a_block 0x10000 a_target a_parallel_result
      target_bytes mined_in_parallel refl
