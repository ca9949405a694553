-- ===== src/P2P/Peers.antt =====
-- The list of bad peers of p2p.go: `isBadPeer`, `markBadPeer`, `filterBadPeers`, `SetPeerOverride`
-- without its trimming, and `SetNetwork` without the broadcast connections.
-- A map that is nil is an empty one. The clock counts milliseconds from 1970. How often the cache file
-- says that a peer was reached is an argument.
use doge_lucky_mining.Common.{
  ℕ, ◌-◌, ◌*◌, ◌≤◌, ◌≡◌, refl, ◌∙◌, arith, Bool, true, false, none, some, List, [], ◌∷◌, ltb, leb,
  if◌then◌else◌, bytes_equal, bytes_equal_refl,
}
use doge_lucky_mining.Hex.{Text}
use doge_lucky_mining.P2P.{P2PClient, map_get, set_network}
use doge_lucky_mining.P2P.Message.{disconnect}

-- `m[k] = v` and `delete(m, k)`.
unfoldable pub map_delete : Text → List (Text × ℕ) → List (Text × ℕ)
map_delete k [] = []
map_delete k ((j, v) ∷ m) =
    let rest = map_delete k m in if bytes_equal j k then rest else (j, v) ∷ rest

unfoldable pub map_put : Text → ℕ → List (Text × ℕ) → List (Text × ℕ)
map_put k v m = (k, v) ∷ map_delete k m

-- `isBadPeer`: an entry of more than two minutes is deleted.
unfoldable pub is_bad_peer : ℕ → Text → P2PClient → P2PClient × Bool
is_bad_peer now addr p = elim (map_get addr p.bad_peers) [
  | none ↦ (p, false)
  | some fail_time ↦
      if ltb (2 * 60 * 1000) (now - fail_time)
      then (record p { bad_peers = map_delete addr p.bad_peers }, false)
      else (p, true)
]

-- `markBadPeer`: a peer that was reached twice or more is marked as of 90 seconds ago.
unfoldable pub mark_bad_peer : ℕ → ℕ → Text → P2PClient → P2PClient
mark_bad_peer now success_count addr p =
    let fail_time = if leb 2 success_count then now - 90 * 1000 else now in
    record p { bad_peers = map_put addr fail_time p.bad_peers }

-- `MarkPeerBad`
unfoldable pub mark_peer_bad : ℕ → ℕ → Text → P2PClient → P2PClient
mark_peer_bad now success_count [] p = p
mark_peer_bad now success_count (c ∷ cs) p = mark_bad_peer now success_count (c ∷ cs) p

unfoldable pub filter_bad_peers : ℕ → List Text → P2PClient → P2PClient × List Text
filter_bad_peers now [] p = (p, [])
filter_bad_peers now (addr ∷ peers) p =
    let (p', bad) = is_bad_peer now addr p in
    let (p'', good) = filter_bad_peers now peers p' in (p'', if bad then good else addr ∷ good)

-- `SetNetwork`
unfoldable pub change_network : Text → P2PClient → P2PClient
change_network network p = set_network network (record (disconnect p) { known_peers = [] })

-- How long a peer is bad, in milliseconds, by how often it was reached.
abbrev pub retry_window : ℕ → ℕ
retry_window success_count = if leb 2 success_count then 30 * 1000 else 120 * 1000

-- What `isBadPeer` answers for a peer with an entry of a given time.
is_bad_peer_at :
    (now : ℕ) (addr : Text) (p : P2PClient) (t : ℕ)
    → map_get addr p.bad_peers ≡ some t
    → (is_bad_peer now addr p).1 ≡ leb (now - t) (2 * 60 * 1000)
unfolding is_bad_peer
is_bad_peer_at now addr p t e = rw (e, is_bad_peer) (ground arith)

map_get-put : (k : Text) (v : ℕ) (m : List (Text × ℕ)) → map_get k (map_put k v m) ≡ some v
unfolding map_get map_put
map_get-put k v m = rw (bytes_equal_refl k) refl

within :
    (now later n : ℕ)
    → 90 * 1000 ≤ now
    → now ≤ later
    → leb (later - (if leb 2 n then now - 90 * 1000 else now)) (2 * 60 * 1000)
      ≡ leb (later - now) (retry_window n)
within now later n old after = ground arith

-- After `markBadPeer`, with a clock that shows at least 90 seconds, `isBadPeer` says that the peer is
-- bad at a later time exactly while no more than 2 minutes have passed, or 30 seconds if the peer
-- was reached twice or more.
pub is_bad_peer-mark_bad_peer :
    (now later successes : ℕ) (addr : Text) (p : P2PClient)
    → 90 * 1000 ≤ now
    → now ≤ later
    → (is_bad_peer later addr (mark_bad_peer now successes addr p)).1
      ≡ leb (later - now) (retry_window successes)
unfolding mark_bad_peer
is_bad_peer-mark_bad_peer now later successes addr p old after =
    let t = if leb 2 successes then now - 90 * 1000 else now in
    is_bad_peer_at later addr (mark_bad_peer now successes addr p) t
      (map_get-put addr t p.bad_peers)
    ∙ within now later successes old after
