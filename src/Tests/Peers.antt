-- ===== src/Tests/Peers.antt =====
-- The search for a peer at concrete inputs.
use mathlib.Core.List.{Perm}
use doge_lucky_mining.Common.{
  ap, ◌≡◌, ◌≢◌, refl, arith, true, false, none, List, [], ◌∷◌, ◌++◌, length, replicate,
}
use doge_lucky_mining.Bytes.{Bytes}
use doge_lucky_mining.Hex.{Text, codes}
use doge_lucky_mining.P2P.{P2PClient}
use doge_lucky_mining.P2P.Cache.{PeerEntry, exchange_sort}
use doge_lucky_mining.P2P.Cache.Order.{BestFirst, exchange_sort-BestFirst-Perm}
use doge_lucky_mining.P2P.Handshake.{Conn}
use doge_lucky_mining.P2P.Connect.{Round, blocked, ensure_connected}
use doge_lucky_mining.P2P.Connect.Blocks.{ensure_connected_blocks}
use doge_lucky_mining.Tests.Data.{a_client}

abbrev zero_digest : Bytes → Bytes
zero_digest x = replicate 32 0

abbrev one_peer : P2PClient
one_peer = record a_client { known_peers = codes "1.2.3.4:22556" ∷ [] }

abbrev silent : Round
silent = record {
  now = 1700000000000;
  nonce = 7;
  dial = none;
  cache = [];
  lookup_host = λ seed. [];
  discover_peers = λ seed. none;
  shuffle = λ peers. peers;
  dial_seed = λ seed. none;
}

cons_not_nil : (x : Text) (xs : List Text) → (x ∷ xs) ≢ []
cons_not_nil x xs e = omega (arith, ap length e)

ensure_connected_blocks_example :
    (ensure_connected zero_digest silent (silent ∷ []) one_peer).1 ≡ blocked
ensure_connected_blocks_example =
    ensure_connected_blocks zero_digest silent (silent ∷ []) one_peer refl refl
      (cons_not_nil (codes "1.2.3.4:22556") []) (refl, tt) (omega arith)

abbrev two_entries : List PeerEntry
two_entries =
    record { addr = codes "1.2.3.4:22556"; success_count = 1; fail_count = 4 }
    ∷ record { addr = codes "5.6.7.8:22556"; success_count = 3; fail_count = 0 }
    ∷ []

exchange_sort-BestFirst-Perm_example :
    BestFirst (exchange_sort (length two_entries) two_entries)
    × Perm two_entries (exchange_sort (length two_entries) two_entries)
exchange_sort-BestFirst-Perm_example = exchange_sort-BestFirst-Perm two_entries

-- A peer that sends its verack and closes the connection.
abbrev leaving : Conn
leaving = record {
  input = 0xc0 ∷ 0xc0 ∷ 0xc0 ∷ 0xc0 ∷ (codes "verack" ++ (replicate 10 0 ++ (0 ∷ 0 ∷ 0 ∷ 0 ∷ [])));
  timeout = false;
  writes = 9;
  ticks = 5;
  drain_ticks = 2;
}

abbrev dialled : P2PClient
dialled = record a_client { connected = true; peer_addr = codes "1.2.3.4:22556" }
