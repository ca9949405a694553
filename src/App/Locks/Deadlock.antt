-- ===== src/App/Locks/Deadlock.antt =====
-- Two orders of the same two locks.
use doge_lucky_mining.Common.{◌≡◌, refl, List, [], ◌∷◌, drop}
use doge_lucky_mining.App.Locks.{
  Goroutine, reads_stats, applies_profile, act, act_on, take_action, take_step, run_schedule,
  all_free, get_stats_actions, apply_profile_actions,
}

stuck :
    (schedule : List Goroutine)
    → run_schedule (reads_stats ∷ applies_profile ∷ schedule) all_free
      ≡ run_schedule (reads_stats ∷ applies_profile ∷ []) all_free
unfolding run_schedule take_step take_action act_on act
stuck [] = refl
stuck (reads_stats ∷ schedule) = stuck schedule
stuck (applies_profile ∷ schedule) = stuck schedule

-- If `GetStats` has read-locked the statistics and `applyProfile` then locked the configuration, neither
-- ever goes on, in any schedule: each has all of its actions but the first one left.
pub run_schedule-deadlock :
    (schedule : List Goroutine)
    → ((run_schedule (reads_stats ∷ applies_profile ∷ schedule) all_free).reader
        ≡ drop 1 get_stats_actions)
      × ((run_schedule (reads_stats ∷ applies_profile ∷ schedule) all_free).optimizer
          ≡ drop 1 apply_profile_actions)
unfolding run_schedule take_step take_action act_on act
run_schedule-deadlock schedule = rw (stuck schedule) (refl, refl)
