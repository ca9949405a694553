-- ===== src/Optimizer.antt =====
-- miner_optimizer.go: the profile that the optimizer chooses by the number of cores and changes with the
-- hash rate.
-- float64 is a type with the operations that the code uses. A profile's time, reason and estimate are
-- for display and left out.
pub mod Bounds
use doge_lucky_mining.Common.{
  ℕ, ◌+◌, ◌-◌, ◌*◌, ◌/◌, Bool, true, false, ◌&&◌, Option, none, some, List, [], ◌∷◌, ◌++◌, length,
  drop, ltb, leb, ◌==◌, if◌then◌else◌, bytes_equal,
}
use doge_lucky_mining.Hex.{Text, codes}

-- Go's float64.
pub record Double : Type 1 where
  pub Value : Type 0
  pub of_ℕ : ℕ → Value
  pub add : Value → Value → Value
  pub mul : Value → Value → Value
  pub div : Value → Value → Value
  pub less : Value → Value → Bool
  pub eight_tenths : Value

pub record OptimizationProfile : Type 0 where
  pub thread_count : ℕ
  pub max_hashes : ℕ
  pub mining_intensity : Text
  pub device_type : Text
  pub use_stride : Bool

-- The settings of the miner and of its configuration that a profile overwrites, and the configured
-- device, which it does not.
pub record Settings : Type 0 where
  pub config_thread_count : ℕ
  pub config_max_hashes : ℕ
  pub config_mining_intensity : Text
  pub config_device_type : Text
  pub config_use_stride : Bool
  pub miner_thread_count : ℕ
  pub miner_max_hashes : ℕ
  pub miner_use_stride : Bool
  pub miner_debug_logging : Bool

unfoldable pub optimal_threads : ℕ → ℕ
optimal_threads cores =
    if ltb 8 cores
    then cores
    else if ltb 4 cores
    then cores * 3 / 4
    else if cores / 2 == 0
    then 1
    else cores / 2

unfoldable pub intensity_of_cores : ℕ → Text × ℕ
intensity_of_cores cores =
    if leb 16 cores
    then (codes "extreme", 1000000)
    else if leb 8 cores
    then (codes "high", 500000)
    else if leb 4 cores
    then (codes "medium", 100000)
    else (codes "low", 50000)

-- `detectSystemCapabilities`
unfoldable pub detect_system_capabilities : ℕ → Bool → OptimizationProfile
detect_system_capabilities cores gpu = record {
  thread_count = optimal_threads cores;
  max_hashes = (intensity_of_cores cores).1;
  mining_intensity = (intensity_of_cores cores).0;
  device_type = if gpu then codes "gpu" else codes "cpu";
  use_stride = false;
}

-- `suggestAdjustment`; `none` is nil.
unfoldable pub suggest_adjustment : OptimizationProfile → Option OptimizationProfile
suggest_adjustment p =
    if ltb 1 p.thread_count then some (record p { thread_count = p.thread_count - 1 }) else none

-- The next intensity and its hashes.
unfoldable pub next_intensity : Text → Option (Text × ℕ)
next_intensity t =
    if bytes_equal t (codes "low")
    then some (codes "medium", 100000)
    else if bytes_equal t (codes "medium")
    then some (codes "high", 500000)
    else if bytes_equal t (codes "high")
    then some (codes "extreme", 1000000)
    else none

-- `suggestIntensityIncrease`
unfoldable pub suggest_intensity_increase : OptimizationProfile → Option OptimizationProfile
suggest_intensity_increase p = elim (next_intensity p.mining_intensity) [
  | none ↦ none
  | some (intensity, hashes) ↦ some (record p { mining_intensity = intensity; max_hashes = hashes })
]

-- `suggestSwitchToGPU`, which nothing calls.
abbrev suggest_switch_to_gpu : OptimizationProfile → OptimizationProfile
suggest_switch_to_gpu p = record p { device_type = codes "gpu" }

-- `applyProfile` on a miner with a configuration.
unfoldable pub apply_profile : OptimizationProfile → Settings → Settings
apply_profile p s = record s {
  config_thread_count = p.thread_count;
  config_max_hashes = p.max_hashes;
  config_mining_intensity = p.mining_intensity;
  config_use_stride = p.use_stride;
  miner_thread_count = p.thread_count;
  miner_max_hashes = p.max_hashes;
  miner_use_stride = p.use_stride;
  miner_debug_logging = false;
}

module _ (D : Double) where
  unfoldable pub sum_from : D.Value → List D.Value → D.Value
  sum_from acc [] = acc
  sum_from acc (x ∷ xs) = sum_from (D.add acc x) xs

  -- The average, and the average of the last three if there are more than five.
  unfoldable pub average : List D.Value → D.Value
  average history = D.div (sum_from (D.of_ℕ 0) history) (D.of_ℕ (length history))

  unfoldable pub recent_average : List D.Value → D.Value
  recent_average history =
      if ltb 5 (length history)
      then D.div (sum_from (D.of_ℕ 0) (drop (length history - 3) history)) (D.of_ℕ 3)
      else average history

  -- `analyzePerformance`
  unfoldable pub analyze_performance :
      List D.Value → OptimizationProfile → Option OptimizationProfile
  analyze_performance history p =
      if ltb (length history) 3
      then none
      else if D.less (recent_average history) (D.mul (average history) D.eight_tenths)
      then suggest_adjustment p
      else if D.less (D.of_ℕ 500000) (average history) && ltb 5 (length history)
      then suggest_intensity_increase p
      else none

  -- The optimizer, and the miner's settings.
  pub record Optimizer : Type 0 where
    pub current_profile : OptimizationProfile
    pub hash_rate_history : List D.Value
    pub settings : Settings

  -- The history with one more rate; of more than ten the first one goes.
  unfoldable pub push_rate : D.Value → List D.Value → List D.Value
  push_rate rate history =
      let longer = history ++ (rate ∷ []) in
      if ltb 10 (length longer) then drop 1 longer else longer

  unfoldable pub apply_recommendation : Option OptimizationProfile → Optimizer → Optimizer
  apply_recommendation none o = o
  apply_recommendation (some p) o = record o {
    current_profile = p;
    settings = apply_profile p o.settings;
  }

  -- `optimizeConfiguration`, with the hash rate of the statistics and whether the miner is running.
  unfoldable pub optimize_configuration : D.Value → Bool → Optimizer → Optimizer
  optimize_configuration rate running o =
      let history = push_rate rate o.hash_rate_history in
      let o' = record o { hash_rate_history = history } in
      let out = apply_recommendation (analyze_performance history o.current_profile) o' in
      if running then if D.less rate (D.of_ℕ 100) then o else out else o

  -- The ticks of a run.
  unfoldable pub ticks : List (D.Value × Bool) → Optimizer → Optimizer
  ticks [] o = o
  ticks ((rate, running) ∷ rates) o = ticks rates (optimize_configuration rate running o)

  -- `GetCurrentHashRate`
  unfoldable pub get_current_hash_rate : List D.Value → D.Value
  get_current_hash_rate [] = D.of_ℕ 0
  get_current_hash_rate (x ∷ []) = x
  get_current_hash_rate (x ∷ y ∷ xs) = get_current_hash_rate (y ∷ xs)
