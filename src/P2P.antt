-- ===== src/P2P.antt =====
-- p2p.go: the state of the P2P client that header sync and peer bookkeeping read and write, and the
-- parameters of the two networks. A Go map is an association list with one entry for a key; heights
-- are non-negative, so an `int64` height is a number. A time is a number of milliseconds, and a zero
-- `time.Time` is `none`. Sockets, mutexes and log callbacks are not state of the model.
pub mod Checkpoint
pub mod Locator
pub mod LocatorLaws
pub mod Accepted
pub mod Headers
pub mod Advance
pub mod Held
pub mod Chain
pub mod Link
pub mod Atomic
pub mod History
pub mod Message
pub mod Peers
pub mod Cache
pub mod Handshake
pub mod Connect
pub mod Request
pub mod Relay
use doge_lucky_mining.Common.{
  ℕ, ◌*◌, ◌≡◌, Bool, true, false, Option, none, some, List, [], ◌∷◌, bytes_equal, if◌then◌else◌,
  ◌==◌,
}
use doge_lucky_mining.Bytes.{Bytes}
use doge_lucky_mining.Hex
use doge_lucky_mining.Hex.{Text, codes}
use doge_lucky_mining.Block.{BlockHeader}

pub record CheckpointEntry : Type 0 where
  pub height : ℕ
  pub hash : Text

pub record P2PClient : Type 0 where
  pub network : Text
  pub port : ℕ
  pub magic : Bytes
  pub genesis_hash_wire : Bytes
  pub genesis_timestamp : ℕ
  pub checkpoints : List (Text × CheckpointEntry)
  pub header_refresh_interval : ℕ
  pub connected : Bool
  pub peer_addr : Text
  pub known_peers : List Text
  pub bad_peers : List (Text × ℕ)
  pub seeds : List Text
  pub seed_bad_list : List (Text × ℕ)
  pub optional_peer_override : Text
  pub best_header : Option BlockHeader
  pub best_height : ℕ
  pub last_non_min_difficulty_bits : ℕ
  pub tip_parent_timestamp : ℕ
  pub locator_hashes : List Bytes
  pub last_headers_applied_at : Option ℕ
  pub tip_history : List (ℕ × Text)
  pub last_headers_req : Option ℕ
  pub start_locator_hash : Bytes
  pub start_height : ℕ
  pub has_start_checkpoint : Bool

abbrev pub doge_mainnet_port : ℕ
doge_mainnet_port = 22556

abbrev pub doge_testnet_port : ℕ
doge_testnet_port = 44556

abbrev pub doge_mainnet_magic : Bytes
doge_mainnet_magic = 0xc0 ∷ 0xc0 ∷ 0xc0 ∷ 0xc0 ∷ []

abbrev pub doge_testnet_magic : Bytes
doge_testnet_magic = 0xfc ∷ 0xc1 ∷ 0xb7 ∷ 0xdc ∷ []

abbrev pub doge_dns_seeds : List Text
doge_dns_seeds = codes "seed.multidoge.org" ∷ codes "seed2.multidoge.org" ∷ []

abbrev pub doge_testnet_seeds : List Text
doge_testnet_seeds = codes "testseed.jrn.me.uk" ∷ []

-- `copy(wire[:], decoded)`: the array keeps its zeros where the text does not decode.
copied : Option Bytes → Bytes
copied (some b) = b
copied none = []

-- The genesis hashes that `init` stores, in wire order.
unfoldable pub doge_genesis_hash_wire : Bytes
unfolding copied
doge_genesis_hash_wire =
    copied (Hex.decode (codes "9156352c1818b32e90c9e792efd6a11a82fe7956a630f03bbee236cedae3911a"))

unfoldable pub doge_testnet_genesis_wire : Bytes
unfolding copied
doge_testnet_genesis_wire =
    copied (Hex.decode (codes "9e555073d0c4f36456db8951f449704d544d2826d9aa60636b40374626780abb"))

checkpoint : ℕ → Text → CheckpointEntry
checkpoint h t = record { height = h; hash = t }

unfoldable pub doge_mainnet_checkpoints : List (Text × CheckpointEntry)
unfolding checkpoint
doge_mainnet_checkpoints =
    (
      codes "0",
      checkpoint 0 (codes "9156352c1818b32e90c9e792efd6a11a82fe7956a630f03bbee236cedae3911a"),
    )
    ∷ (
      codes "3043797",
      checkpoint 3043797
          (codes "a8fecc11d4f4e0b55aaf984095380a48a8414fa22041a94be5360bac2f877bdf6"),
    )
    ∷ (
      codes "5526282",
      checkpoint 5526282 (codes "42309cb45a5d4d5d1fe14894732a8e6da2071269fc8611bc2d01e0edad824205"),
    )
    ∷ (
      codes "6024440",
      checkpoint 6024440 (codes "8b487d1378c7662b1da34f849e91989837b50c2ee26fc5b154512b7ccf1e6a9c"),
    )
    ∷ []

unfoldable pub doge_testnet_checkpoints : List (Text × CheckpointEntry)
unfolding checkpoint
doge_testnet_checkpoints =
    (
      codes "0",
      checkpoint 0 (codes "bb0a78264637406b6360aad926284d544d7049f45189db5664f3c4d07350559e"),
    )
    ∷ (
      codes "38150909",
      checkpoint 38150909
          (codes "c428bfe503bea0fccf67a48518346359dd7bc476d52731448c65bd61b129f02f"),
    )
    ∷ (
      codes "41626399",
      checkpoint 41626399
          (codes "bce071da382f2064d2c03745e2c259a5fb7666daa8ecfa38f0ac5e6e7b3704c5"),
    )
    ∷ (
      codes "41634434",
      checkpoint 41634434
          (codes "c1f08e545ca9a50b53efa86f2950731a1f792c8a435468968d0dbb9f50f4eb0d"),
    )
    ∷ (
      codes "42799352",
      checkpoint 42799352
          (codes "c5d342d702b80d2bc31471dac662f8646de1c51cfbbf0b8afade12fdddbdefac"),
    )
    ∷ []

-- `setNetwork`: every network but testnet is mainnet.
unfoldable pub set_network : Text → P2PClient → P2PClient
set_network network p =
    if bytes_equal network (codes "testnet")
    then record p {
      network = network;
      magic = doge_testnet_magic;
      port = doge_testnet_port;
      seeds = doge_testnet_seeds;
      genesis_hash_wire = doge_testnet_genesis_wire;
      checkpoints = doge_testnet_checkpoints;
      header_refresh_interval = 500;
      genesis_timestamp = 1393214782;
    }
    else record p {
      network = network;
      magic = doge_mainnet_magic;
      port = doge_mainnet_port;
      seeds = doge_dns_seeds;
      genesis_hash_wire = doge_genesis_hash_wire;
      checkpoints = doge_mainnet_checkpoints;
      header_refresh_interval = 15 * 1000;
      genesis_timestamp = 1386325540;
    }

-- `ClearSyncState`
unfoldable pub clear_sync_state : P2PClient → P2PClient
clear_sync_state p = record p {
  best_header = none;
  best_height = 0;
  last_non_min_difficulty_bits = 0;
  tip_parent_timestamp = 0;
  locator_hashes = [];
  last_headers_applied_at = none;
}

-- `SeedLastNonMinDifficultyBits`
unfoldable pub seed_last_non_min_difficulty_bits : ℕ → P2PClient → P2PClient
seed_last_non_min_difficulty_bits bits p =
    if bits == 0 then p else record p { last_non_min_difficulty_bits = bits }

unfoldable pub map_get {ℓ} : {V : Type ℓ} → Text → List (Text × V) → Option V
map_get k [] = none
map_get k ((j, v) ∷ m) = if bytes_equal j k then some v else map_get k m
