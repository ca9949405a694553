-- ===== src/HeaderFetcher.antt =====
-- headers.go, the `HeaderFetcher`: it keeps the headers of a node's chain by height.
-- The map is an association list, and `lastHeight` is `none` for -1. The fetcher's goroutine asks the node
-- every 30 seconds; what a node answers during one round of requests is a `Node`.
pub mod Loop
pub mod Progress
pub mod Gap
use doge_lucky_mining.Common.{
  ℕ, zero, suc, ◌+◌, ◌-◌, ◌<◌, Bool, true, false, Option, none, some, List, [], ◌∷◌, Result, ok,
  err, ltb, ◌==◌, if◌then◌else◌,
}
use doge_lucky_mining.Block.{BlockHeader}
use doge_lucky_mining.Rpc.{Float64, Node, CallError, get_block_count, get_block_hash}
use doge_lucky_mining.Rpc.Header.{parse_block_header_from_rpc}

pub record HeaderFetcher : Type 0 where
  pub headers : List (ℕ × BlockHeader)
  pub last_height : Option ℕ

-- `NewHeaderFetcher`
abbrev pub new_header_fetcher : HeaderFetcher
new_header_fetcher = record { headers = []; last_height = none }

-- `GetHeader`
unfoldable pub get_header : ℕ → List (ℕ × BlockHeader) → Option BlockHeader
get_header height [] = none
get_header height ((k, h) ∷ m) = if k == height then some h else get_header height m

unfoldable pub without_header : ℕ → List (ℕ × BlockHeader) → List (ℕ × BlockHeader)
without_header height [] = []
without_header height ((k, h) ∷ m) =
    let rest = without_header height m in if k == height then rest else (k, h) ∷ rest

-- `headers[height] = header`
unfoldable pub put_header : ℕ → BlockHeader → List (ℕ × BlockHeader) → List (ℕ × BlockHeader)
put_header height h m = (height, h) ∷ without_header height m

abbrev pub max_headers_per_fetch : ℕ
max_headers_per_fetch = 20

-- `startHeight` and `endHeight`
unfoldable pub start_height : ℕ → Option ℕ → ℕ
start_height block_count none = block_count
start_height block_count (some last) = last + 1

unfoldable pub end_height : ℕ → ℕ → ℕ
end_height block_count start =
    if ltb max_headers_per_fetch (block_count - start)
    then start + max_headers_per_fetch
    else block_count

-- The loop over `left` heights: the headers and the count of successes. It stops after eleven
-- failures in a row.
unfoldable pub fetch_loop :
    (ℕ → Option BlockHeader) → ℕ → ℕ → ℕ → List (ℕ × BlockHeader) × ℕ → List (ℕ × BlockHeader) × ℕ
fetch_loop fetch zero height errors out = out
fetch_loop fetch (suc left) height errors (headers, successes) = elim (fetch height) [
  | some h ↦ fetch_loop fetch left (height + 1) 0 (put_header height h headers, successes + 1)
  | none ↦ elim (ltb 10 (errors + 1)) [
    | true ↦ (headers, successes)
    | false ↦ fetch_loop fetch left (height + 1) (errors + 1) (headers, successes)
  ]
]

-- `lastHeight` after the loop.
unfoldable pub new_last : ℕ → ℕ → ℕ → ℕ → Option ℕ → Option ℕ
new_last block_count start end_at successes last =
    if ltb 0 successes
    then some (start + successes - 1)
    else if ltb end_at block_count
    then some end_at
    else last

-- Whether the height is above the last one.
unfoldable pub is_above : ℕ → Option ℕ → Bool
is_above block_count none = true
is_above block_count (some last) = ltb last block_count

-- A round of requests with the count of the node's blocks.
unfoldable pub fetch_round : (ℕ → Option BlockHeader) → ℕ → HeaderFetcher → HeaderFetcher
fetch_round fetch block_count f =
    let start = start_height block_count f.last_height in
    let end_at = end_height block_count start in
    let (headers, successes) = fetch_loop fetch (end_at + 1 - start) start 0 (f.headers, 0) in
    if is_above block_count f.last_height
    then record {
      headers = headers;
      last_height = new_last block_count start end_at successes f.last_height;
    }
    else f

module _ {F : Float64} where
  -- `fetchHeader`
  unfoldable pub fetch_header : Node F → ℕ → Result CallError BlockHeader
  fetch_header node height = elim (get_block_hash node height) [
    | err e ↦ err e
    | ok hash ↦ parse_block_header_from_rpc node hash height
  ]

  unfoldable pub header_at : Node F → ℕ → Option BlockHeader
  header_at node height = elim (fetch_header node height) [ err e ↦ none | ok h ↦ some h ]

  -- `fetchHeaders`
  unfoldable pub fetch_headers : Node F → HeaderFetcher → HeaderFetcher
  fetch_headers node f = elim (get_block_count node) [
    | err e ↦ f
    | ok block_count ↦ fetch_round (header_at node) block_count f
  ]

-- Rounds of a node that does not change.
unfoldable pub fetch_rounds : (ℕ → Option BlockHeader) → ℕ → ℕ → HeaderFetcher → HeaderFetcher
fetch_rounds fetch block_count zero f = f
fetch_rounds fetch block_count (suc n) f =
    fetch_rounds fetch block_count n (fetch_round fetch block_count f)
