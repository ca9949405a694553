-- ===== src/MiningLoop/Resume.antt =====
-- The saved tip of main.go, and where the loop starts header sync.
-- The disk is the two files of the saved tip; `none` is one that is missing or is no JSON of its shape.
-- A file can be written and removed. An error of `SetStartCheckpoint` is ignored, as in the code.
pub mod RoundTrip
use doge_lucky_mining.Common.{
  ℕ, Bool, true, false, not, ◌&&◌, Option, none, some, List, [], ◌∷◌, length, ◌==◌, if◌then◌else◌,
  bytes_equal,
}
use doge_lucky_mining.Common.Int.{ℤ, pos, negsuc}
use doge_lucky_mining.Hex.{Text, codes}
use doge_lucky_mining.P2P.{P2PClient, clear_sync_state, seed_last_non_min_difficulty_bits}
use doge_lucky_mining.P2P.Checkpoint.{set_start_checkpoint, set_start_checkpoint_by_id}
use doge_lucky_mining.P2P.Connect.{is_empty}
use doge_lucky_mining.P2P.Message.{disconnect}
use doge_lucky_mining.P2P.Peers.{mark_peer_bad}

pub record SavedChainTip : Type 0 where
  pub height : ℤ
  pub hash_hex : Text
  pub last_non_min_bits : ℕ

pub record Disk : Type 0 where
  pub chain_tip : Option SavedChainTip
  pub chain_tip_testnet : Option SavedChainTip

abbrev pub is_testnet : Text → Bool
is_testnet network = bytes_equal network (codes "testnet")

-- `getTipPath`: every network but testnet has the file of mainnet.
unfoldable pub read_tip : Text → Disk → Option SavedChainTip
read_tip network d = if is_testnet network then d.chain_tip_testnet else d.chain_tip

unfoldable pub write_tip : Text → Option SavedChainTip → Disk → Disk
write_tip network tip d =
    if is_testnet network
    then record d { chain_tip_testnet = tip }
    else record d { chain_tip = tip }

-- The checks of `loadSavedTip`: height, hash and bits.
unfoldable pub valid_tip : ℤ → Text → ℕ → Option (ℕ × Text × ℕ)
valid_tip (negsuc n) hash bits = none
valid_tip (pos height) hash bits =
    if not (length hash == 64) then none else some (height, hash, bits)

unfoldable pub load_saved_tip : Text → Disk → Option (ℕ × Text × ℕ)
load_saved_tip network d = elim (read_tip network d) [
  | none ↦ none
  | some tip ↦ valid_tip tip.height tip.hash_hex tip.last_non_min_bits
]

unfoldable pub clear_saved_tip : Text → Disk → Disk
clear_saved_tip network d = write_tip network none d

-- Whether the file has this tip already.
unfoldable pub is_saved : ℕ → Text → Option (ℕ × Text × ℕ) → Bool
is_saved height hash none = false
is_saved height hash (some (h, t, bits)) = h == height && bytes_equal t hash

unfoldable pub save_tip : ℕ → Text → Text → ℕ → Disk → Disk
save_tip height hash network bits d =
    if is_saved height hash (load_saved_tip network d)
    then d
    else write_tip network
        (some (record { height = pos height; hash_hex = hash; last_non_min_bits = bits })) d

-- The fields of the configuration that the start of sync reads.
pub record SyncConfig : Type 0 where
  pub network : Text
  pub p2p_checkpoint : Text
  pub p2p_peer_override : Text
  pub p2p_peer_override_mainnet : Text
  pub p2p_peer_override_testnet : Text

-- The peer override of the network, or the older field.
unfoldable pub peer_override : SyncConfig → Text
peer_override c =
    if is_testnet c.network && not (is_empty c.p2p_peer_override_testnet)
    then c.p2p_peer_override_testnet
    else if bytes_equal c.network (codes "mainnet") && not (is_empty c.p2p_peer_override_mainnet)
    then c.p2p_peer_override_mainnet
    else c.p2p_peer_override

-- The client with the override, if there is one; `trim_space` is `strings.TrimSpace`.
unfoldable pub with_override : (Text → Text) → SyncConfig → P2PClient → P2PClient
with_override trim_space c p =
    if is_empty (peer_override c)
    then p
    else record p { optional_peer_override = trim_space (peer_override c) }

-- The start from a saved tip: three heights stand for a checkpoint of the program.
unfoldable pub start_at_saved : Text → ℕ → Text → P2PClient → P2PClient
start_at_saved network height hash p =
    if is_testnet network && height == 38150909
    then (set_start_checkpoint_by_id (codes "38150909") p).0
    else if is_testnet network && height == 42799352
    then (set_start_checkpoint_by_id (codes "42799352") p).0
    else if height == 0
    then (set_start_checkpoint_by_id (codes "0") p).0
    else (set_start_checkpoint hash height p).0

unfoldable pub resume : Text → Option (ℕ × Text × ℕ) → P2PClient → P2PClient
resume network none p = p
resume network (some (height, hash, bits)) p =
    seed_last_non_min_difficulty_bits bits (start_at_saved network height hash p)

-- The loop's state: `p2pForceGenesisNext`, the disk and the client.
pub record SyncState : Type 0 where
  pub force_genesis_next : Bool
  pub disk : Disk
  pub client : P2PClient

-- Genesis after a failed validation, else the chosen checkpoint, else the saved tip, else nothing.
unfoldable pub choose_start : SyncConfig → SyncState → SyncState
choose_start c s =
    if s.force_genesis_next
    then record {
      force_genesis_next = false;
      disk = clear_saved_tip c.network s.disk;
      client = (set_start_checkpoint [] 0 s.client).0;
    }
    else if not (is_empty c.p2p_checkpoint)
    then record s { client = (set_start_checkpoint_by_id c.p2p_checkpoint s.client).0 }
    else record s { client = resume c.network (load_saved_tip c.network s.disk) s.client }

-- The client after a chain that did not validate: without its peer and with nothing synced.
unfoldable pub dropped : ℕ → ℕ → P2PClient → P2PClient
dropped now success_count p =
    clear_sync_state (mark_peer_bad now success_count p.peer_addr (disconnect p))

-- What the loop does then.
unfoldable pub recover : ℕ → ℕ → SyncConfig → SyncState → SyncState
recover now success_count c s =
    let p = dropped now success_count s.client in
    if not (is_empty c.p2p_checkpoint) && not (bytes_equal c.p2p_checkpoint (codes "0"))
    then record s {
      disk = clear_saved_tip c.network s.disk;
      client = (set_start_checkpoint_by_id c.p2p_checkpoint p).0;
    }
    else record {
      force_genesis_next = true;
      disk = clear_saved_tip c.network s.disk;
      client = (set_start_checkpoint [] 0 p).0;
    }
