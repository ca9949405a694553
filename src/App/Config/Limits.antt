-- ===== src/App/Config/Limits.antt =====
-- The range of the settings that the miner gets.
use mathlib.Core.Path.{subst}
use doge_lucky_mining.Common.{
  ℕ, ◌≤◌, ◌≡◌, refl, arith, Bool, some, bytes_equal, Bool-cases, inl, inr, not, ◌&&◌, none,
}
use doge_lucky_mining.Common.Int.{ℤ, pos, negsuc}
use doge_lucky_mining.Hex.{Text, codes}
use doge_lucky_mining.App.Config.{
  MinerConfig, or_default, normalize_network, default_threads, positive_threads, capped_threads,
  capped_hashes, intensity_hashes, mining_defaults, update_config,
}

-- The settings for an intensity.
pub record InLimits (c : MinerConfig) : Type 0 where
  pub threads : ℕ
  pub is_count : c.thread_count ≡ pos threads
  pub some_threads : 1 ≤ threads
  pub at_most_64 : threads ≤ 64
  pub some_hashes : 1 ≤ c.max_hashes
  pub at_most_million : c.max_hashes ≤ 1000000
  pub low : c.mining_intensity ≡ codes "low" → c.max_hashes ≤ 50000
  pub medium : c.mining_intensity ≡ codes "medium" → 50000 ≤ c.max_hashes
  pub high : c.mining_intensity ≡ codes "high" → 100000 ≤ c.max_hashes
  pub extreme : c.mining_intensity ≡ codes "extreme" → 500000 ≤ c.max_hashes

default_positive : (cpus : ℕ) (device : Text) → 1 ≤ cpus → 1 ≤ default_threads cpus device
unfolding default_threads
default_positive cpus device h = ground arith

positive_lem : (cpus : ℕ) (device : Text) (n : ℤ) → 1 ≤ cpus → 1 ≤ positive_threads cpus device n
unfolding positive_threads
positive_lem cpus device (negsuc n) h = default_positive cpus device h
positive_lem cpus device (pos n) h = ground (arith, default_positive cpus device h)

capped_range : (n : ℕ) → 1 ≤ n → (1 ≤ capped_threads n) × (capped_threads n ≤ 64)
unfolding capped_threads
capped_range n h = ground arith

hashes_range : (n : ℕ) → (1 ≤ capped_hashes n) × (capped_hashes n ≤ 1000000)
unfolding capped_hashes
hashes_range n = ground arith

intensity_range :
    (t : Text) (n : ℕ)
    → 1 ≤ n
    → n ≤ 1000000
    → (1 ≤ intensity_hashes t n) × (intensity_hashes t n ≤ 1000000)
unfolding intensity_hashes
intensity_range t n h k = ground arith

low_lem : (n : ℕ) → intensity_hashes (codes "low") n ≤ 50000
unfolding intensity_hashes
low_lem n = ground arith

medium_lem : (n : ℕ) → 50000 ≤ intensity_hashes (codes "medium") n
unfolding intensity_hashes
medium_lem n = ground arith

high_lem : (n : ℕ) → 100000 ≤ intensity_hashes (codes "high") n
unfolding intensity_hashes
high_lem n = ground arith

extreme_lem : (n : ℕ) → 500000 ≤ intensity_hashes (codes "extreme") n
unfolding intensity_hashes
extreme_lem n = ground arith

mining_defaults-InLimits :
    (cpus : ℕ) (device : Text) (c : MinerConfig)
    → 1 ≤ cpus
    → InLimits (mining_defaults cpus device c)
unfolding mining_defaults
mining_defaults-InLimits cpus device c h =
    let d = or_default device c.device_type in
    let n = positive_threads cpus d c.thread_count in
    let t = or_default (codes "medium") c.mining_intensity in
    let k = capped_hashes c.max_hashes in
    let threads = capped_range n (positive_lem cpus d c.thread_count h) in
    let hashes = intensity_range t k (hashes_range c.max_hashes).0 (hashes_range c.max_hashes).1 in
    record {
      threads = capped_threads n;
      is_count = refl;
      some_threads = threads.0;
      at_most_64 = threads.1;
      some_hashes = hashes.0;
      at_most_million = hashes.1;
      low = λ e. rw e (low_lem k);
      medium = λ e. rw e (medium_lem k);
      high = λ e. rw e (high_lem k);
      extreme = λ e. rw e (extreme_lem k);
    }

pub update_config_accepted :
    (connects : Bool) (cpus : ℕ) (device : Text) (c c' : MinerConfig)
    → update_config connects cpus device c ≡ some c'
    → mining_defaults cpus device (normalize_network c) ≡ c'
unfolding update_config
update_config_accepted connects cpus device c c' e =
    let n = normalize_network c in
    elim (Bool-cases (not (bytes_equal n.connection_mode (codes "p2p")) && not connects)) [
      | inl refused ↦ absurd (none_some (rw (refused, update_config) at e))
      | inr accepted ↦ some_eq (rw (accepted, update_config) at e)
    ]
  where
    none_some : {x : MinerConfig} → none ≡ some x → ⊥
    none_some p = cc

    some_eq : {x y : MinerConfig} → some x ≡ some y → x ≡ y
    some_eq p = cc

-- On a machine with at least one core, a configuration that `UpdateConfig` accepts has 1 to 64 threads and 1 to
-- 1000000 hashes for a block, of which the intensity sets a limit: at most 50000 if it is low, and at
-- least 50000, 100000 or 500000 if it is medium, high or extreme. The comments on the fields name 1 to
-- 16 threads and at least 1000 hashes, which the code does not enforce.
pub update_config-InLimits :
    (connects : Bool) (cpus : ℕ) (device : Text) (c c' : MinerConfig)
    → 1 ≤ cpus
    → update_config connects cpus device c ≡ some c'
    → InLimits c'
update_config-InLimits connects cpus device c c' h e =
    subst InLimits (update_config_accepted connects cpus device c c' e)
      (mining_defaults-InLimits cpus device (normalize_network c) h)
