-- ===== src/MiningLoop/Cap/Bounds.antt =====
-- The range of the number of hashes in a round, and how fast it follows the chain.
use doge_lucky_mining.Common.{
  ℕ, zero, suc, ◌+◌, ◌*◌, ◌/◌, ◌≤◌, ◌≡◌, refl, ap, ◌∙◌, arith, true, Option, none, some, List, [],
  ◌∷◌, length, le→leb, ◌-◌,
}
use doge_lucky_mining.MiningLoop.Cap.{
  Tuning, Seen, scale, tip_advance, due, count_stable, adjust, clamp, tune, tune_all, millisecond,
}

unfoldable pub IsTuned : Tuning → Type 0
IsTuned t = (12000 ≤ t.round_cap) × (t.round_cap ≤ 40000) × (t.stable_rounds ≤ 2)

clamp_range : (cap : ℕ) → (12000 ≤ clamp cap) × (clamp cap ≤ 40000)
unfolding clamp
clamp_range cap = ground arith

clamp_mono : (a b : ℕ) → a ≤ b → clamp a ≤ clamp b
unfolding clamp
clamp_mono a b h = ground arith

scale_le : (percent cap : ℕ) → scale percent cap ≤ cap * percent / 100
unfolding scale
scale_le percent cap = omega arith

count_stable_le : (t : Tuning) → (count_stable t).stable_rounds ≤ 2
unfolding count_stable
count_stable_le t = ground arith

adjust_le : (s : Seen) (t : Tuning) → (adjust s t).stable_rounds ≤ 2
unfolding adjust
adjust_le s t = ground (arith, count_stable_le t)

pub tune-IsTuned : (s : Seen) (t : Tuning) → IsTuned t → IsTuned (tune s t)
unfolding tune IsTuned
tune-IsTuned s t h = ((clamp_range _).0, (clamp_range _).1, ground (arith, adjust_le s t, h.2))

-- From a number of hashes in its range, 12000 to 40000, any rounds leave it in its range and the
-- count of stable rounds below 3.
pub tune_all-IsTuned : (seen : List Seen) (t : Tuning) → IsTuned t → IsTuned (tune_all seen t)
unfolding tune_all
tune_all-IsTuned [] t h = h
tune_all-IsTuned (s ∷ seen) t h = tune_all-IsTuned seen (tune s t) (tune-IsTuned s t h)

-- The tip moved in every round, and a second or more went by between two changes.
unfoldable pub Chased : Option ℕ → List Seen → Type 0
Chased last [] = Unit
Chased none (s ∷ seen) = (1 ≤ tip_advance s) × Chased (some s.adjusted_at) seen
Chased (some last) (s ∷ seen) =
    (1 ≤ tip_advance s) × (last + 1000 * millisecond ≤ s.now) × Chased (some s.adjusted_at) seen

Chased-due :
    (s : Seen) (seen : List Seen) (last : Option ℕ) → Chased last (s ∷ seen) → due s.now last ≡ true
unfolding Chased due
Chased-due s seen none h = refl
Chased-due s seen (some last) h = le→leb _ _ (omega (arith, h.1))

Chased-tip :
    (s : Seen) (seen : List Seen) (last : Option ℕ)
    → Chased last (s ∷ seen)
    → (1 ≤ tip_advance s) × Chased (some s.adjusted_at) seen
unfolding Chased
Chased-tip s seen none h = h
Chased-tip s seen (some last) h = (h.0, h.2)

adjust_down :
    (s : Seen) (t : Tuning) → 1 ≤ tip_advance s → (adjust s t).round_cap ≤ t.round_cap * 80 / 100
unfolding adjust
adjust_down s t h = ground (arith, scale_le 65 t.round_cap, scale_le 80 t.round_cap)

tune-due :
    (s : Seen) (t : Tuning)
    → due s.now t.last_cap_adjust ≡ true
    → tune s t ≡ record (adjust s t) {
      round_cap = clamp (adjust s t).round_cap;
      last_cap_adjust = some s.adjusted_at;
    }
unfolding tune
tune-due s t h = rw h refl

-- A bound on the number of hashes after some rounds in which the tip moved.
decay : ℕ → ℕ → ℕ
decay zero b = b
decay (suc n) b = decay n (clamp (b * 80 / 100))

decay_mono : (n a b : ℕ) → a ≤ b → decay n a ≤ decay n b
unfolding decay
decay_mono zero a b h = h
decay_mono (suc n) a b h = decay_mono n _ _ (clamp_mono _ _ (omega arith))

Chased-step :
    (s : Seen) (seen : List Seen) (t : Tuning)
    → Chased t.last_cap_adjust (s ∷ seen)
    → (Chased (tune s t).last_cap_adjust seen)
      × ((tune s t).round_cap ≤ clamp (t.round_cap * 80 / 100))
Chased-step s seen t h =
    let (tip, rest) = Chased-tip s seen t.last_cap_adjust h in
    rw (tune-due s t (Chased-due s seen t.last_cap_adjust h))
      (rest, clamp_mono _ _ (adjust_down s t tip))

Chased-le :
    (seen : List Seen) (t : Tuning)
    → Chased t.last_cap_adjust seen
    → (tune_all seen t).round_cap ≤ decay (length seen) t.round_cap
unfolding tune_all decay
Chased-le [] t h = omega arith
Chased-le (s ∷ seen) t h =
    let (rest, le) = Chased-step s seen t h in
    omega (arith, Chased-le seen (tune s t) rest, decay_mono (length seen) _ _ le)

decay_floor : (n : ℕ) → decay n 12000 ≡ 12000
unfolding decay clamp
decay_floor zero = refl
decay_floor (suc n) = decay_floor n

decay_six : (n : ℕ) → 6 ≤ n → decay n 40000 ≡ 12000
unfolding decay clamp
decay_six n h =
    let e : n ≡ suc (suc (suc (suc (suc (suc (n - 6)))))) = omega arith in
    ap (λ m. decay m 40000) e ∙ decay_floor (n - 6)

-- From a number of hashes in its range, six or more rounds in each of which the tip moved, with a
-- second or more between two changes, bring the number of hashes down to 12000.
pub tune_all_floor :
    (seen : List Seen) (t : Tuning)
    → IsTuned t
    → 6 ≤ length seen
    → Chased t.last_cap_adjust seen
    → (tune_all seen t).round_cap ≡ 12000
unfolding IsTuned
tune_all_floor seen t h n c = omega (
  arith,
  (tune_all-IsTuned seen t h).0,
  Chased-le seen t c,
  decay_mono (length seen) t.round_cap 40000 h.1,
  decay_six (length seen) n,
)
