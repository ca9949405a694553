-- ===== src/App/Config.antt =====
-- The configuration of main.go: what `UpdateConfig`, `newMinerP2POnly` and `loadConfigFromFile` make of it.
-- The JSON file gives back what was written to it. Settings that are only passed on are left out.
pub mod Limits
pub mod Saved
use doge_lucky_mining.Common.{
  ℕ, Bool, true, false, not, ◌&&◌, Option, none, some, List, [], ◌∷◌, ltb, ◌==◌, if◌then◌else◌,
  bytes_equal,
}
use doge_lucky_mining.Common.Int.{ℤ, pos, negsuc}
use doge_lucky_mining.Hex.{Text, codes}
use doge_lucky_mining.P2P.Connect.{is_empty}

pub record MinerConfig : Type 0 where
  pub payout_addr : Text
  pub payout_addr_mainnet : Text
  pub payout_addr_testnet : Text
  pub network : Text
  pub connection_mode : Text
  pub device_type : Text
  pub thread_count : ℤ
  pub max_hashes : ℕ
  pub mining_intensity : Text
  pub nonce_search_mode : Text
  pub nonce_start_mode : Text

-- A text, or a default in its place if it is empty.
unfoldable pub or_default : Text → Text → Text
or_default default [] = default
or_default default (c ∷ cs) = c ∷ cs

unfoldable pub active_payout : MinerConfig → Text
active_payout c =
    if bytes_equal c.network (codes "testnet") then c.payout_addr_testnet else c.payout_addr_mainnet

-- The connection mode, the network and its payout address.
unfoldable pub normalize_network : MinerConfig → MinerConfig
normalize_network c =
    let c' = record c {
      connection_mode =
          if bytes_equal c.connection_mode (codes "p2p") then codes "p2p" else codes "rpc";
      network = or_default (codes "mainnet") c.network;
    } in
    record c' { payout_addr = active_payout c' }

-- The number of threads that is used in place of one that is not positive.
unfoldable pub default_threads : ℕ → Text → ℕ
default_threads cpus device_type = if bytes_equal device_type (codes "gpu") then cpus else 1

unfoldable pub positive_threads : ℕ → Text → ℤ → ℕ
positive_threads cpus device_type (negsuc n) = default_threads cpus device_type
positive_threads cpus device_type (pos n) = if n == 0 then default_threads cpus device_type else n

unfoldable pub capped_threads : ℕ → ℕ
capped_threads n = if ltb 64 n then 64 else n

unfoldable pub capped_hashes : ℕ → ℕ
capped_hashes n =
    let some_hashes = if n == 0 then 100000 else n in
    if ltb 1000000 some_hashes then 1000000 else some_hashes

-- The intensity's limit on the hashes.
unfoldable pub intensity_hashes : Text → ℕ → ℕ
intensity_hashes intensity n =
    if bytes_equal intensity (codes "low")
    then if ltb 50000 n then 50000 else n
    else if bytes_equal intensity (codes "medium")
    then if ltb n 50000 then 100000 else n
    else if bytes_equal intensity (codes "high")
    then if ltb n 100000 then 500000 else n
    else if bytes_equal intensity (codes "extreme")
    then if ltb n 500000 then 1000000 else n
    else n

-- The defaults of the mining settings in `UpdateConfig`; `current_device` is the device of the
-- configuration before.
unfoldable pub mining_defaults : ℕ → Text → MinerConfig → MinerConfig
mining_defaults cpus current_device c =
    let device = or_default current_device c.device_type in
    let intensity = or_default (codes "medium") c.mining_intensity in
    record c {
      device_type = device;
      thread_count = pos (capped_threads (positive_threads cpus device c.thread_count));
      max_hashes = intensity_hashes intensity (capped_hashes c.max_hashes);
      mining_intensity = intensity;
      nonce_search_mode = or_default (codes "sequential") c.nonce_search_mode;
      nonce_start_mode = or_default (codes "calculated") c.nonce_start_mode;
    }

-- The configuration after `UpdateConfig`, which tests the connection first: `none` is the error of
-- a node that does not answer.
unfoldable pub update_config : Bool → ℕ → Text → MinerConfig → Option MinerConfig
update_config connects cpus current_device c =
    let c' = normalize_network c in
    if not (bytes_equal c'.connection_mode (codes "p2p")) && not connects
    then none
    else some (mining_defaults cpus current_device c')

unfoldable pub one_or_more : ℤ → ℤ
one_or_more (negsuc n) = pos 1
one_or_more (pos n) = if n == 0 then pos 1 else pos n

-- The configuration of `newMinerP2POnly`.
unfoldable pub p2p_only : Bool → MinerConfig → MinerConfig
p2p_only gpu c = record c {
  connection_mode = codes "p2p";
  device_type = if gpu then codes "gpu" else codes "cpu";
  thread_count = one_or_more c.thread_count;
  max_hashes = if c.max_hashes == 0 then 100000 else c.max_hashes;
  mining_intensity = or_default (codes "medium") c.mining_intensity;
  nonce_search_mode = or_default (codes "sequential") c.nonce_search_mode;
  nonce_start_mode = or_default (codes "calculated") c.nonce_start_mode;
  network = or_default (codes "mainnet") c.network;
}

-- `loadConfigFromFile`, from what the file has.
unfoldable pub load_config : MinerConfig → MinerConfig
load_config c =
    let named = record c { network = or_default (codes "mainnet") c.network } in
    let moved =
      if is_empty named.payout_addr_mainnet && not (is_empty named.payout_addr)
      then record named { payout_addr_mainnet = named.payout_addr }
      else named in
    record moved { payout_addr = active_payout moved }
