-- ===== src/MiningLoop/Cap.antt =====
-- The number of hashes in a round on testnet, which the loop tunes to the speed of the chain.
-- A time is a number of nanoseconds; a product of `uint64` values wraps around.
pub mod Bounds
use doge_lucky_mining.Common.{
  ℕ, ◌+◌, ◌-◌, ◌*◌, ◌/◌, ◌%◌, ◌^◌, Bool, true, false, ◌&&◌, Option, none, some, List, [], ◌∷◌, ltb,
  leb, ◌==◌, if◌then◌else◌,
}

-- `adaptiveTestnetRoundCap`, `stableTestnetRounds` and `lastCapAdjust`.
pub record Tuning : Type 0 where
  pub round_cap : ℕ
  pub stable_rounds : ℕ
  pub last_cap_adjust : Option ℕ

abbrev pub millisecond : ℕ
millisecond = 1000000

abbrev pub initial_tuning : Tuning
initial_tuning = record { round_cap = 12000; stable_rounds = 0; last_cap_adjust = none }

-- What the loop sees after a round: the height of its template and of the cached tip, the hashes and
-- the time of the round, the age of the headers, and the clock at the test and at the change.
pub record Seen : Type 0 where
  pub template_height : ℕ
  pub tip_height : Option ℕ
  pub hashes_attempted : ℕ
  pub round_elapsed : ℕ
  pub headers_age : ℕ
  pub now : ℕ
  pub adjusted_at : ℕ

-- `cap * percent / 100`
unfoldable pub scale : ℕ → ℕ → ℕ
scale percent cap = cap * percent % 2 ^ 64 / 100

-- How far the tip is above the parent of the template, 0 if it is below.
unfoldable pub tip_advance : Seen → ℕ
tip_advance s = elim s.tip_height [ none ↦ 0 | some height ↦ height + 1 - s.template_height ]

-- The cap is changed at most once in a second.
unfoldable pub due : ℕ → Option ℕ → Bool
due now none = true
due now (some last) = leb (1000 * millisecond) (now - last)

unfoldable pub stalled_near_cap : Seen → ℕ → Bool
stalled_near_cap s cap = leb (scale 95 cap) s.hashes_attempted && ltb s.hashes_attempted cap

-- A round that ended fast at its cap while the tip stood still.
unfoldable pub count_stable : Tuning → Tuning
count_stable t =
    if leb 3 (t.stable_rounds + 1)
    then record t { round_cap = scale 115 t.round_cap; stable_rounds = 0 }
    else record t { stable_rounds = t.stable_rounds + 1 }

abbrev rescale : ℕ → Tuning → Tuning
rescale percent t = record t { round_cap = scale percent t.round_cap; stable_rounds = 0 }

-- The switch.
unfoldable pub adjust : Seen → Tuning → Tuning
adjust s t =
    if leb 4 (tip_advance s)
    then rescale 65 t
    else if leb 1 (tip_advance s)
    then rescale 80 t
    else if stalled_near_cap s t.round_cap && leb (1500 * millisecond) s.round_elapsed
    then rescale 90 t
    else if ltb (1200 * millisecond) s.headers_age && tip_advance s == 0
    then rescale 130 t
    else if tip_advance s == 0
        && (leb t.round_cap s.hashes_attempted && leb s.round_elapsed (500 * millisecond))
    then count_stable t
    else record t { stable_rounds = 0 }

unfoldable pub clamp : ℕ → ℕ
clamp cap = let low = if ltb cap 12000 then 12000 else cap in if ltb 40000 low then 40000 else low

-- What the loop does after a round.
unfoldable pub tune : Seen → Tuning → Tuning
tune s t =
    let t' =
      if due s.now t.last_cap_adjust
      then record (adjust s t) { last_cap_adjust = some s.adjusted_at }
      else t in
    record t' { round_cap = clamp t'.round_cap }

-- The rounds of a run, first to last.
unfoldable pub tune_all : List Seen → Tuning → Tuning
tune_all [] t = t
tune_all (s ∷ seen) t = tune_all seen (tune s t)
