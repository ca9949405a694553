-- ===== src/Difficulty/Timespan.antt =====
-- The timespan that scales the target.
use doge_lucky_mining.Common.{ℕ, ◌+◌, ◌-◌, ◌/◌, ◌≤◌, ◌≡◌, arith, ltb, if◌then◌else◌}
use doge_lucky_mining.Common.Int.{pos_part, neg_part}
use doge_lucky_mining.Difficulty.{actual_timespan, modulated_timespan}

-- The modulated timespan is between 53 and 90 seconds: the lower limit of 45 is never met, since an
-- actual timespan below one second counts as one.
pub modulated_timespan_bounds :
    (tip_time parent_time : ℕ)
    → (neg_part (modulated_timespan tip_time parent_time) ≡ 0)
      × (53 ≤ pos_part (modulated_timespan tip_time parent_time))
      × (pos_part (modulated_timespan tip_time parent_time) ≤ 90)
unfolding modulated_timespan actual_timespan
modulated_timespan_bounds t p = ground arith

-- A tip mined 53 to 67 seconds after its parent gives the timespan of 60 seconds.
pub modulated_timespan_stable :
    (tip_time parent_time : ℕ)
    → parent_time + 53 ≤ tip_time
    → tip_time ≤ parent_time + 67
    → pos_part (modulated_timespan tip_time parent_time) ≡ 60
unfolding modulated_timespan actual_timespan
modulated_timespan_stable t p l u = ground arith

-- The modulated timespan without signed numbers.
abbrev pub damped : ℕ → ℕ
damped a =
    if ltb a 60 then 60 - (60 - a) / 8 else if ltb 30 ((a - 60) / 8) then 90 else 60 + (a - 60) / 8

abbrev at_least_one : ℕ → ℕ
at_least_one a = if ltb a 1 then 1 else a

modulated_timespan-eq-damped :
    (t p : ℕ) → pos_part (modulated_timespan t p) ≡ damped (at_least_one (t - p))
unfolding modulated_timespan actual_timespan
modulated_timespan-eq-damped t p = ground arith

damped_mono : (a b : ℕ) → a ≤ b → damped a ≤ damped b
damped_mono a b h = ground arith

-- A later tip does not give a shorter timespan.
pub modulated_timespan_mono :
    (t t' p : ℕ) → t ≤ t' → pos_part (modulated_timespan t p) ≤ pos_part (modulated_timespan t' p)
modulated_timespan_mono t t' p h =
    rw (modulated_timespan-eq-damped t p, modulated_timespan-eq-damped t' p)
      (damped_mono (at_least_one (t - p)) (at_least_one (t' - p)) (ground arith))
