-- ===== src/Optimizer/Bounds.antt =====
-- The profiles that the optimizer can reach.
use doge_lucky_mining.Common.{
  ℕ, ◌≤◌, ◌≡◌, refl, ◌⊎◌, inl, inr, arith, Bool, true, false, ◌&&◌, Option, none, some, List, [],
  ◌∷◌, ◌++◌, length, length-append, length-drop, ltb, leb, if◌then◌else◌, bytes_equal, Bool-cases,
}
use doge_lucky_mining.Hex.{Text, codes}
use doge_lucky_mining.Optimizer.{
  Double, OptimizationProfile, Settings, optimal_threads, intensity_of_cores,
  detect_system_capabilities, suggest_adjustment, next_intensity, suggest_intensity_increase,
  apply_profile, analyze_performance, average, recent_average, Optimizer, push_rate,
  apply_recommendation, optimize_configuration, ticks,
}

-- The hashes of each intensity.
pub data Paired : Text → ℕ → Type 0 where
  low : Paired (codes "low") 50000
  medium : Paired (codes "medium") 100000
  high : Paired (codes "high") 500000
  extreme : Paired (codes "extreme") 1000000

pub record InRange (cores : ℕ) (p : OptimizationProfile) : Type 0 where
  pub some_threads : 1 ≤ p.thread_count
  pub few_threads : p.thread_count ≤ cores
  pub paired : Paired p.mining_intensity p.max_hashes

threads_range :
    (cores : ℕ) → 1 ≤ cores → (1 ≤ optimal_threads cores) × (optimal_threads cores ≤ cores)
unfolding optimal_threads
threads_range cores h = ground arith

intensity-Paired : (cores : ℕ) → Paired (intensity_of_cores cores).0 (intensity_of_cores cores).1
unfolding intensity_of_cores
intensity-Paired cores = elim (Bool-cases (leb 16 cores)) [
  | inl e ↦ rw e extreme
  | inr e ↦ elim (Bool-cases (leb 8 cores)) [
    | inl f ↦ rw (e, f) high
    | inr f ↦ elim (Bool-cases (leb 4 cores)) [
      | inl g ↦ rw (e, f, g) medium
      | inr g ↦ rw (e, f, g) low
    ]
  ]
]

detect-InRange :
    (cores : ℕ) (gpu : Bool) → 1 ≤ cores → InRange cores (detect_system_capabilities cores gpu)
unfolding detect_system_capabilities
detect-InRange cores gpu h = record {
  some_threads = (threads_range cores h).0;
  few_threads = (threads_range cores h).1;
  paired = intensity-Paired cores;
}

-- What a suggestion keeps.
Keeps : ℕ → Option OptimizationProfile → Type 0
Keeps cores none = Unit
Keeps cores (some p) = InRange cores p

adjustment-Keeps :
    (cores : ℕ) (p : OptimizationProfile) → InRange cores p → Keeps cores (suggest_adjustment p)
unfolding suggest_adjustment Keeps
adjustment-Keeps cores p h = elim (Bool-cases (ltb 1 p.thread_count)) [
  | inr e ↦ rw e tt
  | inl e ↦ rw e (record {
    some_threads = ground arith;
    few_threads = omega (arith, h.few_threads);
    paired = h.paired;
  })
]

NextPaired : Option (Text × ℕ) → Type 0
NextPaired none = Unit
NextPaired (some (intensity, hashes)) = Paired intensity hashes

next_intensity-Paired : (t : Text) → NextPaired (next_intensity t)
unfolding next_intensity NextPaired
next_intensity-Paired t = elim (Bool-cases (bytes_equal t (codes "low"))) [
  | inl e ↦ rw e medium
  | inr e ↦ elim (Bool-cases (bytes_equal t (codes "medium"))) [
    | inl f ↦ rw (e, f) high
    | inr f ↦ elim (Bool-cases (bytes_equal t (codes "high"))) [
      | inl g ↦ rw (e, f, g) extreme
      | inr g ↦ rw (e, f, g) tt
    ]
  ]
]

increase-Keeps :
    (cores : ℕ) (p : OptimizationProfile)
    → InRange cores p
    → Keeps cores (suggest_intensity_increase p)
unfolding suggest_intensity_increase Keeps NextPaired
increase-Keeps cores p h =
    go (next_intensity p.mining_intensity) (next_intensity-Paired p.mining_intensity) refl
  where
    go :
        (o : Option (Text × ℕ))
        → NextPaired o
        → next_intensity p.mining_intensity ≡ o
        → Keeps cores (suggest_intensity_increase p)
    go none n e = rw (e, suggest_intensity_increase) tt
    go (some (intensity, hashes)) n e =
        rw (e, suggest_intensity_increase)
          (record { some_threads = h.some_threads; few_threads = h.few_threads; paired = n })

if-Keeps :
    (cores : ℕ) (b : Bool) (x y : Option OptimizationProfile)
    → Keeps cores x
    → Keeps cores y
    → Keeps cores (if b then x else y)
if-Keeps cores true x y h k = h
if-Keeps cores false x y h k = k

-- The settings follow the profile.
pub record Follows (p : OptimizationProfile) (s : Settings) : Type 0 where
  pub config_threads : s.config_thread_count ≡ p.thread_count
  pub config_hashes : s.config_max_hashes ≡ p.max_hashes
  pub config_intensity : s.config_mining_intensity ≡ p.mining_intensity
  pub miner_threads : s.miner_thread_count ≡ p.thread_count
  pub miner_hashes : s.miner_max_hashes ≡ p.max_hashes
  pub config_stride : s.config_use_stride ≡ p.use_stride
  pub miner_stride : s.miner_use_stride ≡ p.use_stride
  pub quiet : s.miner_debug_logging ≡ false

apply_profile-Follows : (p : OptimizationProfile) (s : Settings) → Follows p (apply_profile p s)
unfolding apply_profile
apply_profile-Follows p s = record {
  config_threads = refl;
  config_hashes = refl;
  config_intensity = refl;
  miner_threads = refl;
  miner_hashes = refl;
  config_stride = refl;
  miner_stride = refl;
  quiet = refl;
}

module _ (D : Double) (cores : ℕ) where
  -- The profile is in its range and the history short; the settings are those of the start, or
  -- follow the profile; and the configured device is the user's.
  pub record IsSound (first : Settings) (o : Optimizer D) : Type 0 where
    pub in_range : InRange cores o.current_profile
    pub short : length o.hash_rate_history ≤ 10
    pub settings : (o.settings ≡ first) ⊎ Follows o.current_profile o.settings
    pub device : o.settings.config_device_type ≡ first.config_device_type

  analyze-Keeps :
      (history : List D.Value) (p : OptimizationProfile)
      → InRange cores p
      → Keeps cores (analyze_performance D history p)
  unfolding analyze_performance Keeps
  analyze-Keeps history p h =
      let declines = D.less (recent_average D history) (D.mul (average D history) D.eight_tenths) in
      let excels = D.less (D.of_ℕ 500000) (average D history) && ltb 5 (length history) in
      let more = if excels then suggest_intensity_increase p else none in
      if-Keeps cores (ltb (length history) 3) none (if declines then suggest_adjustment p else more)
        tt
        (if-Keeps cores declines (suggest_adjustment p) more (adjustment-Keeps cores p h)
          (if-Keeps cores excels (suggest_intensity_increase p) none (increase-Keeps cores p h) tt))

  length-push_rate :
      (rate : D.Value) (history : List D.Value)
      → length history ≤ 10
      → length (push_rate D rate history) ≤ 10
  unfolding push_rate
  length-push_rate rate history h =
      ground (arith, length-append history (rate ∷ []), length-drop 1 (history ++ (rate ∷ [])))

  apply_recommendation-IsSound :
      (first : Settings) (r : Option OptimizationProfile) (o : Optimizer D)
      → Keeps cores r
      → IsSound first o
      → IsSound first (apply_recommendation D r o)
  unfolding apply_recommendation Keeps apply_profile
  apply_recommendation-IsSound first none o k h = h
  apply_recommendation-IsSound first (some p) o k h = record {
    in_range = k;
    short = h.short;
    settings = inr (apply_profile-Follows p o.settings);
    device = h.device;
  }

  if-IsSound :
      (first : Settings) (b : Bool) (x y : Optimizer D)
      → IsSound first x
      → IsSound first y
      → IsSound first (if b then x else y)
  if-IsSound first true x y h k = h
  if-IsSound first false x y h k = k

  optimize-IsSound :
      (first : Settings) (rate : D.Value) (running : Bool) (o : Optimizer D)
      → IsSound first o
      → IsSound first (optimize_configuration D rate running o)
  unfolding optimize_configuration
  optimize-IsSound first rate running o h =
      let history = push_rate D rate o.hash_rate_history in
      let o' : Optimizer D = record o { hash_rate_history = history } in
      let pushed : IsSound first o' = record {
        in_range = h.in_range;
        short = length-push_rate rate o.hash_rate_history h.short;
        settings = h.settings;
        device = h.device;
      } in
      let out = apply_recommendation D (analyze_performance D history o.current_profile) o' in
      let slow = D.less rate (D.of_ℕ 100) in
      if-IsSound first running (if slow then o else out) o
        (if-IsSound first slow o out h (
          apply_recommendation-IsSound first (analyze_performance D history o.current_profile) o'
            (analyze-Keeps history o.current_profile h.in_range) pushed))
        h

-- On a machine with at least one core, from the profile that the optimizer detects, any ticks with any hash rates
-- leave a profile with between one thread and one for each core, whose hashes belong to its
-- intensity, and a history of at most ten rates; the threads, the hashes, the intensity, the stride and
-- the debug log of the miner and of its configuration are those of the start, or those of the profile
-- with the debug log off, and the configured device stays what it was.
pub ticks-IsSound :
    (D : Double) (cores : ℕ) (gpu : Bool) (first : Settings) (rates : List (D.Value × Bool))
    → 1 ≤ cores
    → IsSound D cores first (
        ticks D rates (record {
          current_profile = detect_system_capabilities cores gpu;
          hash_rate_history = [];
          settings = first;
        }))
unfolding ticks
ticks-IsSound D cores gpu first rates h = go rates _ (record {
  in_range = detect-InRange cores gpu h;
  short = omega arith;
  settings = inl refl;
  device = refl;
})
  where
    go :
        (rates : List (D.Value × Bool)) (o : Optimizer D)
        → IsSound D cores first o
        → IsSound D cores first (ticks D rates o)
    go [] o k = k
    go ((rate, running) ∷ rates) o k = go rates _ (optimize-IsSound D cores first rate running o k)
