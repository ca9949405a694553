-- ===== src/P2P/Locator.antt =====
-- The ring of recent block hashes from which `getheaders` takes its locator, and that message.
use doge_lucky_mining.Common.{
  ℕ, Bool, false, Option, none, some, List, [], ◌∷◌, ◌++◌, length, take, replicate, ltb,
  if◌then◌else◌, bytes_equal, ◌&&◌, ◌||◌,
}
use doge_lucky_mining.Bytes.{Bytes, put_le}
use doge_lucky_mining.Wire.{write_var_int}
use doge_lucky_mining.Block.{BlockHeader}
use doge_lucky_mining.P2P.{P2PClient}

abbrev pub max_locator_hashes : ℕ
max_locator_hashes = 16

-- One round of `prependLocatorHashesFromBatch`.
unfoldable pub prepend_locator : Bytes → List Bytes → List Bytes
prepend_locator h ring =
    let ring' = h ∷ ring in if ltb 24 (length ring') then take 24 ring' else ring'

unfoldable pub prepend_locator_hashes_from_batch : List Bytes → List Bytes → List Bytes
prepend_locator_hashes_from_batch [] ring = ring
prepend_locator_hashes_from_batch (h ∷ batch) ring =
    prepend_locator_hashes_from_batch batch (prepend_locator h ring)

unfoldable pub is_in : Bytes → List Bytes → Bool
is_in h [] = false
is_in h (x ∷ xs) = bytes_equal x h || is_in h xs

-- The closure `add` of `sendGetHeaders`: `seen` holds exactly the hashes of `loc`.
unfoldable pub add_locator : List Bytes → Bytes → List Bytes
add_locator loc h = if is_in h loc then loc else loc ++ (h ∷ [])

-- The loop over the ring, while the locator is not full.
unfoldable pub add_ring : List Bytes → List Bytes → List Bytes
add_ring loc [] = loc
add_ring loc (h ∷ ring) =
    let more = add_ring (add_locator loc h) ring in
    if ltb (length loc) max_locator_hashes then more else loc

unfoldable pub add_tip : Option BlockHeader → List Bytes
add_tip none = []
add_tip (some tip) = tip.hash ∷ []

unfoldable pub first_locators : P2PClient → List Bytes
unfolding add_tip
first_locators p = elim p.locator_hashes [
  | [] ↦ add_tip p.best_header
  | h ∷ ring ↦ add_ring [] (h ∷ ring)
]

unfoldable pub with_checkpoint : P2PClient → List Bytes → List Bytes
with_checkpoint p loc =
    if p.has_start_checkpoint && ltb (length loc) max_locator_hashes
    then add_locator loc p.start_locator_hash
    else loc

unfoldable pub or_genesis : List Bytes → List Bytes
or_genesis [] = replicate 32 0 ∷ []
or_genesis (h ∷ loc) = h ∷ loc

unfoldable pub locator : P2PClient → List Bytes
unfolding or_genesis
locator p = or_genesis (with_checkpoint p (first_locators p))

locator_bytes : List Bytes → Bytes
locator_bytes [] = []
locator_bytes (h ∷ loc) = h ++ locator_bytes loc

-- The payload that `sendGetHeaders` hands to `writeMessage`.
unfoldable pub get_headers_payload : P2PClient → Bytes
unfolding locator_bytes
get_headers_payload p =
    put_le 4 70015
    ++ (write_var_int (length (locator p)) ++ (locator_bytes (locator p) ++ replicate 32 0))
