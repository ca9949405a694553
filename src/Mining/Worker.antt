-- ===== src/Mining/Worker.antt =====
-- A goroutine of `mineParallel` (scrypt.go).
-- A step of a thread is a test of a loop's condition with what follows up to the next access to
-- shared state: `found.Load()` and the hash that it guards are one step, `found.Swap(true)` with the
-- send is another. A `uint32` wraps at 2 ^ 32. The first nonce, from the clock, is an argument.
use doge_lucky_mining.Common.{
  ℕ, zero, suc, ◌+◌, ◌-◌, ◌*◌, ◌/◌, ◌%◌, ◌^◌, Bool, true, not, ◌&&◌, ◌||◌, List, [], ◌∷◌, ◌++◌, ltb,
  leb, ◌==◌, if◌then◌else◌, bytes_equal,
}
use doge_lucky_mining.Bytes.{Bytes}
use doge_lucky_mining.Hex.{codes}
use doge_lucky_mining.HashCompare.{hash_meets_target_le, reverse_bytes_in_place}
use doge_lucky_mining.Mining.{ScryptMiner, effective_max_hashes, hash_of_nonce}

abbrev pub max_uint32 : ℕ
max_uint32 = 0xFFFFFFFF

pub data SearchMode : Type 0 where
  backward strided ranged : SearchMode

-- Where a goroutine stands: before the test of its outer loop; before the test of its inner loop,
-- with the loop's variable and bound; with a nonce that meets the target, before `found.Swap`; or
-- at its end.
pub data Stage : Type 0 where
  outer : Stage
  inner : ℕ → ℕ → Stage
  offered : ℕ → Stage
  done : Stage

-- The variables of a goroutine.
pub record Worker : Type 0 where
  pub start_nonce : ℕ
  pub end_nonce : ℕ
  pub stride : ℕ
  pub current_nonce : ℕ
  pub local_hash_count : ℕ
  pub stage : Stage

-- The variables that the goroutines share; `results` is the channel.
pub record Shared : Type 0 where
  pub found : Bool
  pub results : List (ℕ × Bytes)
  pub total_hashes : ℕ

pub record Job : Type 0 where
  pub header_base : Bytes
  pub target : Bytes
  pub max_local_hashes : ℕ
  pub mode : SearchMode

unfoldable pub search_mode : ScryptMiner → SearchMode
search_mode m =
    if bytes_equal m.nonce_search_mode (codes "backward")
    then backward
    else if m.use_stride
    then strided
    else ranged

unfoldable pub hashes_per_thread : ScryptMiner → ℕ
hashes_per_thread m = let n = effective_max_hashes m / m.thread_count in if n == 0 then 1000 else n

-- A goroutine at its start: `startNonceBase`, and the thread's id.
unfoldable pub worker_of : ScryptMiner → ℕ → ℕ → Worker
worker_of m base id =
    let range = max_uint32 / m.thread_count in
    let start =
      if m.use_stride then (base + id) % 2 ^ 32 % max_uint32 else (base + id * range) % 2 ^ 32 in
    let end =
      if m.use_stride || id + 1 == m.thread_count
      then max_uint32
      else (base + (id + 1) * range) % 2 ^ 32 in
    record {
      start_nonce = start;
      end_nonce = end;
      stride = if m.use_stride then m.thread_count else 0;
      current_nonce = start;
      local_hash_count = 0;
      stage = outer;
    }

-- The goroutines with the `k` ids from `id` on.
unfoldable pub workers_from : ScryptMiner → ℕ → ℕ → ℕ → List Worker
workers_from m base zero id = []
workers_from m base (suc k) id = worker_of m base id ∷ workers_from m base k (id + 1)

-- `totalHashes.Add(localHashCount)` at the end of a goroutine that leaves its loops.
unfoldable pub finish : Shared → Worker → Shared × Worker
finish s w = (
  record s { total_hashes = (s.total_hashes + w.local_hash_count) % 2 ^ 64 },
  record w { stage = done },
)

-- Whether a loop goes on: hashes are left, and no thread has found a block.
unfoldable pub goes_on : Job → Shared → Worker → Bool
goes_on j s w = ltb w.local_hash_count j.max_local_hashes && not s.found

-- The start of a batch of 1000 nonces.
unfoldable pub start_batch : SearchMode → Worker → Stage
start_batch backward w =
    inner w.current_nonce (if ltb 1000 w.current_nonce then w.current_nonce - 1000 else 0)
start_batch strided w = inner 0 1000
start_batch ranged w =
    let batch_end = (w.current_nonce + 1000) % 2 ^ 32 in
    inner w.current_nonce (if ltb w.end_nonce batch_end then w.end_nonce else batch_end)

-- `currentNonce > 0`, which the loop that counts down asks too.
unfoldable pub has_nonces : SearchMode → Worker → Bool
has_nonces backward w = ltb 0 w.current_nonce
has_nonces strided w = true
has_nonces ranged w = true

unfoldable pub step_outer : Job → Shared → Worker → Shared × Worker
step_outer j s w =
    if goes_on j s w && has_nonces j.mode w
    then (s, record w { stage = start_batch j.mode w })
    else finish s w

-- The nonce that the inner loop tries at its variable `i`, the test on `i`, and the next `i`.
unfoldable pub nonce_of : SearchMode → Worker → ℕ → ℕ
nonce_of backward w i = i
nonce_of strided w i = (w.start_nonce + i * w.stride) % 2 ^ 32 % max_uint32
nonce_of ranged w i = i

unfoldable pub in_batch : SearchMode → ℕ → ℕ → Bool
in_batch backward i bound = ltb bound i
in_batch strided i bound = ltb i bound
in_batch ranged i bound = ltb i bound

unfoldable pub next_index : SearchMode → ℕ → ℕ
next_index backward i = i - 1
next_index strided i = i + 1
next_index ranged i = i + 1

-- After the inner loop.
unfoldable pub end_batch : Job → SearchMode → Worker → ℕ → Worker
end_batch j backward w bound = record w {
  current_nonce =
      if bound == 0 && ltb w.local_hash_count j.max_local_hashes then max_uint32 else bound;
  stage = outer;
}
end_batch j strided w bound = record w {
  start_nonce = (w.start_nonce + 1000 * w.stride) % 2 ^ 32 % max_uint32;
  stage = outer;
}
end_batch j ranged w bound = record w {
  current_nonce =
      if leb w.end_nonce bound && ltb w.local_hash_count j.max_local_hashes
      then w.start_nonce
      else bound;
  stage = outer;
}

module _ (scrypt : Bytes → Bytes) where
  unfoldable pub nonce_meets : Job → ℕ → Bool
  nonce_meets j nonce = hash_meets_target_le (hash_of_nonce scrypt j.header_base nonce) j.target

  -- The hash of a nonce, and what comes of it.
  unfoldable pub try_nonce : Job → Worker → ℕ → ℕ → Worker
  try_nonce j w i bound =
      let nonce = nonce_of j.mode w i in
      record w {
        local_hash_count = w.local_hash_count + 1;
        stage = if nonce_meets j nonce then offered nonce else inner (next_index j.mode i) bound;
      }

  unfoldable pub step_inner : Job → Shared → Worker → ℕ → ℕ → Shared × Worker
  step_inner j s w i bound =
      if in_batch j.mode i bound && goes_on j s w
      then (s, try_nonce j w i bound)
      else (s, end_batch j j.mode w bound)

  -- `found.Swap(true)`: only the first sends its result. The goroutine returns.
  unfoldable pub step_offer : Job → Shared → Worker → ℕ → Shared × Worker
  step_offer j s w nonce =
      let hash = reverse_bytes_in_place (hash_of_nonce scrypt j.header_base nonce) in
      let s' =
        if s.found
        then s
        else record s { found = true; results = s.results ++ ((nonce, hash) ∷ []) } in
      (s', record w { stage = done })

  unfoldable pub step_at : Job → Shared → Worker → Stage → Shared × Worker
  step_at j s w outer = step_outer j s w
  step_at j s w (inner i bound) = step_inner j s w i bound
  step_at j s w (offered nonce) = step_offer j s w nonce
  step_at j s w done = (s, w)

  unfoldable pub step : Job → Shared → Worker → Shared × Worker
  unfolding step_at
  step j s w = step_at j s w w.stage
