-- ===== src/P2P/Connect.antt =====
-- `ensureConnected` of p2p.go, which looks for a peer in one loop.
-- Every round of the loop has its own answers from outside: the clock, the connections that dialling
-- gives, the addresses of the seeds' names, what `discoverPeersFromSeed` returns, how a list is
-- shuffled, and what the cache file holds; what the loop writes to the file is not followed. The mutex of the peers is a flag: a `Lock` on a
-- mutex that the same goroutine holds never returns. The messages of the errors are left out.
pub mod Blocks
use doge_lucky_mining.Common.{
  ℕ, ◌-◌, ◌*◌, Bool, true, false, not, ◌||◌, Option, none, some, List, [], ◌∷◌, ◌++◌, length, take,
  ltb, if◌then◌else◌,
}
use doge_lucky_mining.Bytes.{Bytes}
use doge_lucky_mining.Hex.{Text}
use doge_lucky_mining.P2P.{P2PClient, map_get}
use doge_lucky_mining.P2P.Peers.{mark_bad_peer, filter_bad_peers, map_put}
use doge_lucky_mining.P2P.Cache.{PeerEntry, success_count_of, load_cached_peers}
use doge_lucky_mining.P2P.Handshake.{Conn, Shaken, shaken, refused, panicked, try_connect}

pub record Round : Type 0 where
  pub now : ℕ
  pub nonce : ℕ
  pub dial : Option (Text × Conn)
  pub cache : List PeerEntry
  pub lookup_host : Text → List Text
  pub discover_peers : Text → Option (List Text)
  pub shuffle : List Text → List Text
  pub dial_seed : Text → Option (Text × Conn)

-- `ensureConnected` returned, with or without an error; or it panicked, waits for its mutex for ever,
-- or is still in its loop after the rounds that are given.
pub data Ended : Type 0 where
  connected failed crashed blocked running : Ended

unfoldable pub is_empty {ℓ} : {A : Type ℓ} → List A → Bool
is_empty [] = true
is_empty (x ∷ xs) = false

-- The peers that the name of a seed resolves to; whether any seed gave one that is not bad.
unfoldable pub resolve_seeds : Round → List Text → P2PClient → P2PClient × Bool
resolve_seeds r [] p = (p, false)
resolve_seeds r (seed ∷ seeds) p =
    let (p', peers) = filter_bad_peers r.now (r.lookup_host seed) p in
    let p'' = record p' { known_peers = p'.known_peers ++ r.shuffle peers } in
    let (q, resolved) = resolve_seeds r seeds (if is_empty peers then p' else p'') in
    (q, not (is_empty peers) || resolved)

-- Whether a seed failed less than an hour ago.
unfoldable pub on_cooldown : ℕ → Text → P2PClient → Bool
on_cooldown now seed p = elim (map_get seed p.seed_bad_list) [
  | none ↦ false
  | some bad_time ↦ ltb (now - bad_time) (60 * 60 * 1000)
]

-- The `getaddr` protocol on each seed, up to the first that gives a peer that is not bad.
unfoldable pub ask_seeds : Round → List Text → P2PClient → P2PClient × Bool
ask_seeds r [] p = (p, false)
ask_seeds r (seed ∷ seeds) p = elim (on_cooldown r.now seed p) [
  | true ↦ ask_seeds r seeds p
  | false ↦ elim (r.discover_peers seed) [
    | none ↦ ask_seeds r seeds (record p { seed_bad_list = map_put seed r.now p.seed_bad_list })
    | some found ↦
        let (p', peers) = filter_bad_peers r.now found p in
        elim (is_empty peers) [
          | true ↦ ask_seeds r seeds p'
          | false ↦ (record p' { known_peers = p'.known_peers ++ take 50 (r.shuffle peers) }, true)
        ]
  ]
]

module _ (sha256 : Bytes → Bytes) where
  -- The seeds themselves as peers.
  unfoldable pub dial_seeds : Round → List Text → P2PClient → P2PClient × Ended
  dial_seeds r [] p = (p, failed)
  dial_seeds r (seed ∷ seeds) p =
      let (p', answer) = try_connect sha256 r.now r.nonce (r.dial_seed seed) p in
      elim answer [
        | shaken ↦ (p', connected)
        | refused ↦ dial_seeds r seeds p'
        | panicked ↦ (p', crashed)
      ]

  -- The loop. `locked` says that the round before it left the mutex locked: it does so after a peer
  -- that failed, if fewer than three are left.
  unfoldable pub connect_loop : List Round → Bool → P2PClient → P2PClient × Ended
  connect_loop [] true p = (p, blocked)
  connect_loop [] false p = (p, running)
  connect_loop (r ∷ rounds) true p = (p, blocked)
  connect_loop (r ∷ rounds) false p = elim p.known_peers [
    | addr ∷ peers ↦
        let (p', answer) =
          try_connect sha256 r.now r.nonce r.dial (record p { known_peers = peers }) in
        elim answer [
          | shaken ↦ (p', connected)
          | refused ↦
              let p'' = mark_bad_peer r.now (success_count_of addr r.cache) addr p' in
              connect_loop rounds (ltb (length p''.known_peers) 3) p''
          | panicked ↦ (p', crashed)
        ]
    | [] ↦
        let (p', resolved) = resolve_seeds r p.seeds p in
        elim resolved [
          | true ↦ connect_loop rounds false p'
          | false ↦
              let (p'', fetched) = ask_seeds r p.seeds p' in
              elim fetched [
                | true ↦ connect_loop rounds false p''
                | false ↦ dial_seeds r p.seeds p''
              ]
        ]
  ]

  -- The part after the override peer.
  unfoldable pub from_known : Round → List Round → P2PClient → P2PClient × Ended
  from_known first rounds p = elim (is_empty p.known_peers) [
    | true ↦ connect_loop rounds false (load_cached_peers first.now first.cache p)
    | false ↦ connect_loop rounds false p
  ]

  -- `ensureConnected`; `first` answers for the override peer and the cache.
  unfoldable pub ensure_connected : Round → List Round → P2PClient → P2PClient × Ended
  ensure_connected first rounds p = elim p.connected [
    | true ↦ (p, connected)
    | false ↦ elim (is_empty p.optional_peer_override) [
      | true ↦ from_known first rounds p
      | false ↦
          let (p', answer) = try_connect sha256 first.now first.nonce first.dial p in
          elim answer [
            | shaken ↦ (p', connected)
            | refused ↦ from_known first rounds p'
            | panicked ↦ (p', crashed)
          ]
    ]
  ]
