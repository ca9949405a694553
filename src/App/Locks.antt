-- ===== src/App/Locks.antt =====
-- The locks of `GetStats` of main.go and of `applyProfile` of miner_optimizer.go, which calls
-- `broadcastLogMessage` of main.go.
-- A `sync.RWMutex` is whether it has a writer, and its number of readers. A goroutine is the list
-- of the actions that it has left on the two locks that both functions use, and a run is a schedule: each
-- entry names the goroutine whose next action is tried, which waits if it cannot be taken. A writer
-- that waits does not keep readers away here, which the locks of Go do as well.
pub mod Deadlock
use doge_lucky_mining.Common.{
  ℕ, ◌+◌, ◌-◌, Bool, true, false, not, ◌&&◌, Option, none, some, List, [], ◌∷◌, ◌==◌, if◌then◌else◌,
}

pub record RwMutex : Type 0 where
  pub has_writer : Bool
  pub readers : ℕ

pub data Action : Type 0 where
  lock unlock r_lock r_unlock : Action

-- What an action makes of a lock; `none` if it has to wait.
unfoldable pub act : Action → RwMutex → Option RwMutex
act lock m =
    if not m.has_writer && m.readers == 0 then some (record m { has_writer = true }) else none
act unlock m = some (record m { has_writer = false })
act r_lock m = if m.has_writer then none else some (record m { readers = m.readers + 1 })
act r_unlock m = some (record m { readers = m.readers - 1 })

pub data Mutex : Type 0 where
  stats_mutex config_mutex : Mutex

-- `GetStats` holds `statsMutex` until it returns, and takes `configMutex` meanwhile.
abbrev pub get_stats_actions : List (Mutex × Action)
get_stats_actions =
    (stats_mutex, r_lock)
    ∷ (config_mutex, r_lock)
    ∷ (config_mutex, r_unlock)
    ∷ (stats_mutex, r_unlock)
    ∷ []

-- `applyProfile` holds `configMutex` until it returns, and its last call, `broadcastLogMessage`, takes
-- `statsMutex`.
abbrev pub apply_profile_actions : List (Mutex × Action)
apply_profile_actions =
    (config_mutex, lock) ∷ (stats_mutex, lock) ∷ (stats_mutex, unlock) ∷ (config_mutex, unlock) ∷ []

pub record Locks : Type 0 where
  pub stats_lock : RwMutex
  pub config_lock : RwMutex
  pub reader : List (Mutex × Action)
  pub optimizer : List (Mutex × Action)

pub data Goroutine : Type 0 where
  reads_stats applies_profile : Goroutine

-- The locks after an action, if it can be taken.
unfoldable pub act_on : Mutex × Action → Locks → Option Locks
act_on (stats_mutex, a) s = elim (act a s.stats_lock) [
  | none ↦ none
  | some m ↦ some (record s { stats_lock = m })
]
act_on (config_mutex, a) s = elim (act a s.config_lock) [
  | none ↦ none
  | some m ↦ some (record s { config_lock = m })
]

set_rest : Goroutine → List (Mutex × Action) → Locks → Locks
set_rest reads_stats rest s = record s { reader = rest }
set_rest applies_profile rest s = record s { optimizer = rest }

rest_of : Goroutine → Locks → List (Mutex × Action)
rest_of reads_stats s = s.reader
rest_of applies_profile s = s.optimizer

unfoldable pub take_action : Goroutine → List (Mutex × Action) → Locks → Locks
unfolding set_rest
take_action g [] s = s
take_action g (x ∷ rest) s = elim (act_on x s) [ none ↦ s | some s' ↦ set_rest g rest s' ]

unfoldable pub take_step : Goroutine → Locks → Locks
unfolding rest_of
take_step g s = take_action g (rest_of g s) s

unfoldable pub run_schedule : List Goroutine → Locks → Locks
run_schedule [] s = s
run_schedule (g ∷ schedule) s = run_schedule schedule (take_step g s)

abbrev free : RwMutex
free = record { has_writer = false; readers = 0 }

abbrev pub all_free : Locks
all_free = record {
  stats_lock = free;
  config_lock = free;
  reader = get_stats_actions;
  optimizer = apply_profile_actions;
}
