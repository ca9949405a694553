-- ===== src/P2P/Cache.antt =====
-- The cache of peers of p2p.go: `updatePeerResult`, `savePeerToCache`, `savePeersToCache`,
-- `isWrongNetworkPeer` and `loadCachedPeers`.
-- The file is the list of its entries, without their times and user agents; a file that cannot be read
-- has none. The format of older versions, which `loadCachedPeers` falls back to, and the trimming of
-- addresses are left out. Counts are not negative.
pub mod Order
use doge_lucky_mining.Common.{
  ℕ, zero, suc, ◌+◌, ◌-◌, ◌*◌, ◌^◌, Bool, true, false, not, ◌&&◌, ◌||◌, Option, none, some, List,
  [], ◌∷◌, ◌++◌, length, take, ltb, leb, ◌==◌, if◌then◌else◌, bytes_equal,
}
use doge_lucky_mining.Common.Int.{ℤ, pos, negsuc, sub_ℕ, ltb_ℤ}
use doge_lucky_mining.Hex.{Text, codes}
use doge_lucky_mining.P2P.{P2PClient, doge_mainnet_port, doge_testnet_port}
use doge_lucky_mining.P2P.Peers.{is_bad_peer}

pub record PeerEntry : Type 0 where
  pub addr : Text
  pub success_count : ℕ
  pub fail_count : ℕ

-- The count that `markBadPeer` looks up, 0 if there is no entry.
unfoldable pub success_count_of : Text → List PeerEntry → ℕ
success_count_of addr [] = 0
success_count_of addr (e ∷ cache) =
    let rest = success_count_of addr cache in
    if bytes_equal e.addr addr then e.success_count else rest

unfoldable pub count_result : Bool → PeerEntry → PeerEntry
count_result true e = record e { success_count = e.success_count + 1 }
count_result false e = record e { fail_count = e.fail_count + 1 }

-- The first entry of the address with the result counted; `none` if there is none.
unfoldable pub update_entry : Text → Bool → List PeerEntry → Option (List PeerEntry)
update_entry addr success [] = none
update_entry addr success (e ∷ cache) = elim (bytes_equal e.addr addr) [
  | true ↦ some (count_result success e ∷ cache)
  | false ↦ elim (update_entry addr success cache) [ none ↦ none | some cache' ↦ some (e ∷ cache') ]
]

new_entry : Text → Bool → PeerEntry
new_entry addr success =
    count_result success (record { addr = addr; success_count = 0; fail_count = 0 })

add_entry : Text → Bool → List PeerEntry → List PeerEntry
add_entry addr success cache =
    if leb 200 (length cache) then cache else cache ++ (new_entry addr success ∷ [])

-- `updatePeerResult`
unfoldable pub update_peer_result : Text → Bool → List PeerEntry → List PeerEntry
unfolding add_entry new_entry
update_peer_result [] success cache = cache
update_peer_result (c ∷ cs) success cache = elim (update_entry (c ∷ cs) success cache) [
  | some cache' ↦ cache'
  | none ↦ add_entry (c ∷ cs) success cache
]

-- `savePeersToCache`
unfoldable pub save_peers_to_cache : List Text → List PeerEntry → List PeerEntry
save_peers_to_cache [] cache = cache
save_peers_to_cache (addr ∷ addrs) cache =
    save_peers_to_cache addrs (update_peer_result addr false cache)

digits : ℕ → Text → Option ℕ
digits n [] = some n
digits n (c ∷ cs) = elim (leb b'0' c && leb c b'9') [
  | true ↦ digits (n * 10 + (c - b'0')) cs
  | false ↦ none
]

up_to : ℕ → Option ℕ → Option ℕ
up_to limit none = none
up_to limit (some n) = if leb n limit then some n else none

unsigned : ℕ → Text → Option ℕ
unsigned limit [] = none
unsigned limit (c ∷ cs) = up_to limit (digits 0 (c ∷ cs))

positive : Option ℕ → Option ℤ
positive none = none
positive (some n) = some (pos n)

negative : Option ℕ → Option ℤ
negative none = none
negative (some n) = some (sub_ℕ 0 n)

-- `strconv.Atoi`
unfoldable pub atoi : Text → Option ℤ
unfolding digits unsigned up_to positive negative
atoi [] = none
atoi (c ∷ cs) =
    if c == b'-'
    then negative (unsigned (2 ^ 63) cs)
    else if c == b'+'
    then positive (unsigned (2 ^ 63 - 1) cs)
    else positive (unsigned (2 ^ 63 - 1) (c ∷ cs))

first_part : Text → List Text → List Text
first_part c [] = c ∷ []
first_part c (part ∷ parts) = (c ++ part) ∷ parts

-- `strings.Split(addr, ":")`
unfoldable pub split_colon : Text → List Text
unfolding first_part
split_colon [] = [] ∷ []
split_colon (c ∷ cs) =
    let parts = split_colon cs in if c == b':' then [] ∷ parts else first_part (c ∷ []) parts

last_of : Text → List Text → Text
last_of s [] = s
last_of s (t ∷ ts) = last_of t ts

-- The text of the port: after the last colon of an address in brackets, else after the only one.
unfoldable pub port_text : Text → Option Text
unfolding last_of
port_text addr = elim (split_colon addr) [
  | [] ↦ none
  | host ∷ [] ↦ none
  | host ∷ port ∷ more ↦ elim addr [
    | [] ↦ none
    | c ∷ cs ↦
        if c == b'['
        then some (last_of port more)
        else if leb 1 (length more)
        then none
        else some port
  ]
]

is_port : ℕ → ℤ → Bool
is_port n (pos m) = m == n
is_port n (negsuc m) = false

zero_if_none : Option ℤ → ℤ
zero_if_none none = pos 0
zero_if_none (some n) = n

port_number : Option Text → ℤ
port_number none = pos 0
port_number (some s) = zero_if_none (atoi s)

-- `isWrongNetworkPeer`
unfoldable pub is_wrong_network_peer : Text → Text → Bool
unfolding is_port zero_if_none port_number
is_wrong_network_peer network addr =
    let port = port_number (port_text addr) in
    is_port 0 port
    || (bytes_equal network (codes "testnet") && not (is_port doge_testnet_port port))
    || (bytes_equal network (codes "mainnet") && not (is_port doge_mainnet_port port))

-- Successes against failures.
unfoldable pub beats : PeerEntry → PeerEntry → Bool
beats e f = ltb_ℤ (sub_ℕ f.success_count f.fail_count) (sub_ℕ e.success_count e.fail_count)

-- The inner loop of the sort, for the entry at its place `i` and those behind: every one that beats
-- the entry at `i` changes places with it.
unfoldable pub sweep : PeerEntry → List PeerEntry → PeerEntry × List PeerEntry
sweep e [] = (e, [])
sweep e (f ∷ fs) = elim (beats f e) [
  | true ↦ let (best, rest) = sweep f fs in (best, e ∷ rest)
  | false ↦ let (best, rest) = sweep e fs in (best, f ∷ rest)
]

-- The outer loop, for the number of places that are left.
unfoldable pub exchange_sort : ℕ → List PeerEntry → List PeerEntry
exchange_sort zero es = es
exchange_sort (suc n) [] = []
exchange_sort (suc n) (e ∷ es) = let (best, rest) = sweep e es in best ∷ exchange_sort n rest

-- The addresses that are neither bad nor of another network.
unfoldable pub usable : ℕ → List PeerEntry → P2PClient → P2PClient × List Text
usable now [] p = (p, [])
usable now (e ∷ es) p =
    let (p', bad) = is_bad_peer now e.addr p in
    let (p'', good) = usable now es p' in
    (p'', if bad || is_wrong_network_peer p.network e.addr then good else e.addr ∷ good)

-- `loadCachedPeers`
unfoldable pub load_cached_peers : ℕ → List PeerEntry → P2PClient → P2PClient
load_cached_peers now cache p =
    let (p', loaded) = usable now (exchange_sort (length cache) cache) p in
    record p' { known_peers = take 50 loaded ++ p'.known_peers }
