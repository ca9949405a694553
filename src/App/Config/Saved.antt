-- ===== src/App/Config/Saved.antt =====
-- What a configuration is after it was saved and loaded again.
use mathlib.Core.Path.{subst}
use doge_lucky_mining.Common.{
  ℕ, ◌≡◌, refl, ap, ◌∙◌, sym, inl, inr, Bool, true, false, not, ◌&&◌, some, [], ◌∷◌, if◌then◌else◌,
  bytes_equal, Bool-cases,
}
use doge_lucky_mining.Hex.{Text, codes}
use doge_lucky_mining.P2P.Connect.{is_empty}
use doge_lucky_mining.App.Config.Limits.{update_config_accepted}
use doge_lucky_mining.App.Config.{
  MinerConfig, or_default, active_payout, normalize_network, mining_defaults, update_config,
  load_config,
}

-- What `UpdateConfig` makes of the addresses and the network.
pub record IsActive (c : MinerConfig) : Type 0 where
  pub named : is_empty c.network ≡ false
  pub active : c.payout_addr ≡ active_payout c

named_text : (t : Text) → is_empty t ≡ false → or_default (codes "mainnet") t ≡ t
unfolding or_default is_empty
named_text [] e = cc
named_text (c ∷ cs) e = refl

or_default_full : (c : ℕ) (d t : Text) → is_empty (or_default (c ∷ d) t) ≡ false
unfolding or_default is_empty
or_default_full c d [] = refl
or_default_full c d (x ∷ xs) = refl

-- Loading a configuration whose mainnet address is set, or whose active address is empty.
load_config_same :
    (c : MinerConfig)
    → IsActive c
    → (is_empty c.payout_addr_mainnet && not (is_empty c.payout_addr)) ≡ false
    → load_config c ≡ c
unfolding load_config
load_config_same c h k =
    rw (named_text c.network h.named)
      (rw k (ap (λ (x : Text). record c { payout_addr = x }) (sym h.active)))

both : (a b : Bool) → (a && not b) ≡ true → (a ≡ true) × (b ≡ false)
both true false e = (refl, refl)
both true true e = cc
both false b e = cc

-- The active address is that of testnet if it is not empty and there is none of mainnet.
testnet_active :
    (c : MinerConfig)
    → IsActive c
    → (is_empty c.payout_addr_mainnet && not (is_empty c.payout_addr)) ≡ true
    → (bytes_equal c.network (codes "testnet") ≡ true) × (c.payout_addr ≡ c.payout_addr_testnet)
unfolding active_payout
testnet_active c h k = elim (Bool-cases (bytes_equal c.network (codes "testnet"))) [
  | inl e ↦ (e, rw e at h.active)
  | inr e ↦
      let (empty, full) = both (is_empty c.payout_addr_mainnet) (is_empty c.payout_addr) k in
      absurd (true_false (sym empty ∙ ap is_empty (sym (rw e at h.active)) ∙ full))
]
  where
    true_false : true ≡ false → ⊥
    true_false p = cc

load_config_moved :
    (c : MinerConfig)
    → IsActive c
    → (is_empty c.payout_addr_mainnet && not (is_empty c.payout_addr)) ≡ true
    → load_config c ≡ record c { payout_addr_mainnet = c.payout_addr_testnet }
unfolding load_config active_payout
load_config_moved c h k =
    let (testnet, same) = testnet_active c h k in
    rw (named_text c.network h.named) (rw k (rw testnet (rw same refl)))

-- When loading takes the active address for that of mainnet.
moves_lem :
    (c : MinerConfig)
    → IsActive c
    → (is_empty c.payout_addr_mainnet && not (is_empty c.payout_addr)) ≡ (
        bytes_equal c.network (codes "testnet")
        && (is_empty c.payout_addr_mainnet && not (is_empty c.payout_addr_testnet)))
unfolding active_payout
moves_lem c h = elim (Bool-cases (bytes_equal c.network (codes "testnet"))) [
  | inl e ↦ rw e (ap (λ t. is_empty c.payout_addr_mainnet && not (is_empty t)) (rw e at h.active))
  | inr e ↦ rw e (
      ap (λ t. is_empty c.payout_addr_mainnet && not (is_empty t)) (rw e at h.active)
      ∙ and_not (is_empty c.payout_addr_mainnet))
]
  where
    and_not : (b : Bool) → (b && not b) ≡ false
    and_not true = refl
    and_not false = refl

normalize-IsActive :
    (cpus : ℕ) (device : Text) (c : MinerConfig)
    → IsActive (mining_defaults cpus device (normalize_network c))
unfolding mining_defaults normalize_network active_payout
normalize-IsActive cpus device c = record { named = or_default_full _ _ c.network; active = refl }

update_config-IsActive :
    (connects : Bool) (cpus : ℕ) (device : Text) (c c' : MinerConfig)
    → update_config connects cpus device c ≡ some c'
    → IsActive c'
update_config-IsActive connects cpus device c c' e =
    subst IsActive (update_config_accepted connects cpus device c c' e)
      (normalize-IsActive cpus device c)

-- A configuration that `UpdateConfig` accepts and saves is the same when it is loaded again, unless its
-- network is testnet and it has an address of testnet and none of mainnet: then the loaded configuration has
-- the address of testnet for mainnet too.
pub load_config-update_config :
    (connects : Bool) (cpus : ℕ) (device : Text) (c c' : MinerConfig)
    → update_config connects cpus device c ≡ some c'
    → load_config c' ≡ (
        if bytes_equal c'.network (codes "testnet")
          && (is_empty c'.payout_addr_mainnet && not (is_empty c'.payout_addr_testnet))
        then record c' { payout_addr_mainnet = c'.payout_addr_testnet }
        else c')
load_config-update_config connects cpus device c c' e =
    let h = update_config-IsActive connects cpus device c c' e in
    rw (← moves_lem c' h)
      (elim (Bool-cases (is_empty c'.payout_addr_mainnet && not (is_empty c'.payout_addr))) [
        | inl k ↦ rw k (load_config_moved c' h k)
        | inr k ↦ rw k (load_config_same c' h k)
      ])
