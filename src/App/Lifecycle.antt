-- ===== src/App/Lifecycle.antt =====
-- `Miner.Start` and `Miner.Stop` of main.go, with `Start` and `Stop` of the header fetcher (headers.go) and
-- of the optimizer (miner_optimizer.go).
-- A channel that is only closed is a flag: `some true` is closed, `some false` open and `none` nil. A wait for a
-- goroutine ends, since each returns once its channel is closed. The disconnecting of the
-- client and the messages are left out; the goroutine of an object is whether its loop goes on after
-- its first look at the channel.
pub mod Restart
use doge_lucky_mining.Common.{
  Bool, true, false, not, ◌&&◌, ◌||◌, Option, none, some, Result, ok, err, List, [], ◌∷◌,
  if◌then◌else◌, bytes_equal,
}
use doge_lucky_mining.Hex.{Text, codes}
use doge_lucky_mining.P2P.Connect.{is_empty}

-- The fields of the configuration that `Start` reads.
pub record StartConfig : Type 0 where
  pub connection_mode : Text
  pub network : Text
  pub payout_addr : Text
  pub payout_addr_testnet : Text
  pub payout_addr_mainnet : Text
  pub rpc_url : Text
  pub rpc_user : Text
  pub rpc_pass : Text

pub record App : Type 0 where
  pub config : StartConfig
  pub has_rpc_client : Bool
  -- The fetcher's `stopChan`, if there is a fetcher, and its loop.
  pub header_fetcher : Option Bool
  pub fetcher_loops : Bool
  pub stop_chan : Option Bool
  -- The optimizer's `stopChan`, and its loop.
  pub optimizer_closed : Bool
  pub optimizer_loops : Bool
  pub is_running : Bool

pub data StartError : Type 0 where
  no_payout_address rpc_failed rpc_not_configured : StartError

unfoldable pub payout : StartConfig → Text
payout c =
    let first =
      if bytes_equal c.network (codes "testnet") && not (is_empty c.payout_addr_testnet)
      then c.payout_addr_testnet
      else c.payout_addr in
    if bytes_equal c.network (codes "mainnet") && not (is_empty c.payout_addr_mainnet)
    then c.payout_addr_mainnet
    else first

unfoldable pub has_rpc_settings : StartConfig → Bool
has_rpc_settings c =
    not (is_empty c.rpc_url) && (not (is_empty c.rpc_user) && not (is_empty c.rpc_pass))

-- The client and the fetcher; `connects` is the answer of the test of the connection.
unfoldable pub connect : Bool → App → Result StartError App
connect connects a =
    if bytes_equal a.config.connection_mode (codes "p2p")
    then ok (record a { header_fetcher = none })
    else if a.has_rpc_client
    then ok a
    else if has_rpc_settings a.config
    then if connects
      then ok (record a { has_rpc_client = true; header_fetcher = some false })
      else err rpc_failed
    else err rpc_not_configured

-- `HeaderFetcher.Start`: the loop goes on if the channel is open.
unfoldable pub start_fetcher : Option Bool → Bool → Bool
start_fetcher none loops = loops
start_fetcher (some closed) loops = not closed

-- From the channel on.
unfoldable pub launch : App → App
launch a = record a {
  stop_chan = some false;
  is_running = true;
  fetcher_loops = start_fetcher a.header_fetcher a.fetcher_loops;
  optimizer_loops = not a.optimizer_closed;
}

-- `Start`; `trim_space` is `strings.TrimSpace`.
unfoldable pub start_miner : (Text → Text) → Bool → App → Result StartError App
start_miner trim_space connects a =
    if is_empty (trim_space (payout a.config))
    then err no_payout_address
    else elim (connect connects a) [ err e ↦ err e | ok a' ↦ ok (launch a') ]

-- `HeaderFetcher.Stop`, which closes the channel without a look at it; `none` is a panic.
unfoldable pub stop_fetcher : Option Bool → Option (Option Bool)
stop_fetcher none = some none
stop_fetcher (some true) = none
stop_fetcher (some false) = some (some true)

-- `Stop`; `none` is a panic.
unfoldable pub stop_miner : App → Option App
stop_miner a = elim (stop_fetcher a.header_fetcher) [
  | none ↦ none
  | some fetcher ↦ some (record a {
    header_fetcher = fetcher;
    fetcher_loops = false;
    optimizer_closed = true;
    optimizer_loops = false;
    stop_chan = some false;
    is_running = false;
  })
]
