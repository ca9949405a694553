-- ===== src/Tests/App.antt =====
-- The application at concrete inputs.
use doge_lucky_mining.Common.{
  ℕ, ◌+◌, ◌*◌, ◌/◌, ◌≡◌, refl, arith, Bool, true, false, not, ◌&&◌, none, some, List, [], ◌∷◌, ok,
  ltb, drop, if◌then◌else◌, bytes_equal,
}
use doge_lucky_mining.Common.Int.{pos}
use doge_lucky_mining.Hex.{Text, codes}
use doge_lucky_mining.P2P.Connect.{is_empty}
use doge_lucky_mining.Optimizer.{
  Double, Settings, Optimizer, ticks, detect_system_capabilities, optimize_configuration, push_rate,
  analyze_performance, recent_average, average, sum_from, suggest_adjustment, apply_recommendation,
  apply_profile, optimal_threads, intensity_of_cores,
}
use doge_lucky_mining.Optimizer.Bounds.{IsSound, ticks-IsSound}
use doge_lucky_mining.App.Lifecycle.{App, payout, start_miner, stop_miner}
use doge_lucky_mining.App.Lifecycle.Restart.{stop_miner-again}
use doge_lucky_mining.App.Locks.{
  reads_stats, applies_profile, get_stats_actions, apply_profile_actions, run_schedule, all_free,
}
use doge_lucky_mining.App.Locks.Deadlock.{run_schedule-deadlock}
use doge_lucky_mining.App.Config.{
  MinerConfig, or_default, active_payout, normalize_network, positive_threads, capped_threads,
  capped_hashes, intensity_hashes, mining_defaults, update_config, load_config,
}
use doge_lucky_mining.App.Config.Limits.{InLimits, update_config-InLimits}
use doge_lucky_mining.App.Config.Saved.{load_config-update_config}

-- Numbers in place of floating-point ones, in tenths.
abbrev tenths : Double
tenths = record {
  Value = ℕ;
  of_ℕ = λ n. 10 * n;
  add = λ a b. a + b;
  mul = λ a b. a * b / 10;
  div = λ a b. 10 * a / b;
  less = ltb;
  eight_tenths = 8;
}

abbrev some_settings : Settings
some_settings = record {
  config_thread_count = 2;
  config_max_hashes = 100000;
  config_mining_intensity = codes "medium";
  config_device_type = codes "cpu";
  config_use_stride = true;
  miner_thread_count = 2;
  miner_max_hashes = 100000;
  miner_use_stride = true;
  miner_debug_logging = true;
}

abbrev falling : List (ℕ × Bool)
falling =
    (90000, true)
    ∷ (90000, true)
    ∷ (90000, true)
    ∷ (90000, false)
    ∷ (5000, true)
    ∷ (4000, true)
    ∷ (3000, true)
    ∷ []

abbrev optimizer_at_start : Optimizer tenths
optimizer_at_start = record {
  current_profile = detect_system_capabilities 8 false;
  hash_rate_history = [];
  settings = some_settings;
}

-- The rates fall, so the profile loses a thread and the miner follows it.
one_thread_less :
    (detect_system_capabilities 8 false).thread_count
    ≡ (ticks tenths falling optimizer_at_start).settings.miner_thread_count + 1
unfolding ticks optimize_configuration push_rate analyze_performance recent_average average sum_from
    suggest_adjustment apply_recommendation apply_profile detect_system_capabilities optimal_threads
    intensity_of_cores
one_thread_less = refl

ticks-IsSound_example : IsSound tenths 8 some_settings (ticks tenths falling optimizer_at_start)
ticks-IsSound_example = ticks-IsSound tenths 8 false some_settings falling (omega arith)

abbrev an_app : App
an_app = record {
  config = record {
    connection_mode = codes "rpc";
    network = codes "mainnet";
    payout_addr = codes "D5ERdEN1gsouFSs7zsq7VYJxyWP6YUB7QK";
    payout_addr_testnet = [];
    payout_addr_mainnet = [];
    rpc_url = codes "http://127.0.0.1:22555";
    rpc_user = codes "user";
    rpc_pass = codes "pass";
  };
  has_rpc_client = true;
  header_fetcher = some false;
  fetcher_loops = false;
  stop_chan = some false;
  optimizer_closed = false;
  optimizer_loops = false;
  is_running = false;
}

abbrev untrimmed : Text → Text
untrimmed t = t

stop_miner-again_example :
    (first : App) × (start_miner untrimmed true an_app ≡ ok first)
    × (stopped : App) × (stop_miner first ≡ some stopped)
    × (second : App) × (start_miner untrimmed true stopped ≡ ok second)
    × (stop_miner second ≡ none)
stop_miner-again_example =
    stop_miner-again untrimmed true an_app (unfold payout is_empty in refl) refl refl refl

run_schedule-deadlock_example :
    ((run_schedule (reads_stats ∷ applies_profile ∷ reads_stats ∷ []) all_free).reader
      ≡ drop 1 get_stats_actions)
    × ((run_schedule (reads_stats ∷ applies_profile ∷ reads_stats ∷ []) all_free).optimizer
        ≡ drop 1 apply_profile_actions)
run_schedule-deadlock_example = run_schedule-deadlock (reads_stats ∷ [])

abbrev a_config : MinerConfig
a_config = record {
  payout_addr = [];
  payout_addr_mainnet = [];
  payout_addr_testnet = codes "nWNhTS1rRqvWiUMR2rdxvqcVv6wdVzGLMz";
  network = codes "testnet";
  connection_mode = codes "p2p";
  device_type = codes "cpu";
  thread_count = pos 100;
  max_hashes = 0;
  mining_intensity = codes "low";
  nonce_search_mode = codes "sequential";
  nonce_start_mode = codes "random";
}

abbrev updated : MinerConfig
updated = record a_config {
  payout_addr = a_config.payout_addr_testnet;
  thread_count = pos 64;
  max_hashes = 50000;
}

accepted : update_config false 8 (codes "cpu") a_config ≡ some updated
unfolding update_config normalize_network mining_defaults or_default active_payout positive_threads
    capped_threads capped_hashes intensity_hashes
accepted = refl

update_config-InLimits_example : InLimits updated
update_config-InLimits_example =
    update_config-InLimits false 8 (codes "cpu") a_config updated (omega arith) accepted

load_config-update_config_example : load_config updated ≡ (
    if bytes_equal updated.network (codes "testnet")
      && (is_empty updated.payout_addr_mainnet && not (is_empty updated.payout_addr_testnet))
    then record updated { payout_addr_mainnet = updated.payout_addr_testnet }
    else updated)
load_config-update_config_example =
    load_config-update_config false 8 (codes "cpu") a_config updated accepted
