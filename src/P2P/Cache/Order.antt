-- ===== src/P2P/Cache/Order.antt =====
-- The order in which `loadCachedPeers` puts the peers.
use mathlib.Core.List.{Perm}
use mathlib.Core.List.Perm
use doge_lucky_mining.Common.{
  ℕ, zero, suc, ◌+◌, ◌≤◌, ◌≡◌, refl, ap, arith, true, false, List, [], ◌∷◌, length, All, Bool-cases,
  inl, inr,
}
use doge_lucky_mining.P2P.Cache.{PeerEntry, beats, sweep, exchange_sort}

-- The first entry has at least the score of the second: its successes without its failures.
abbrev pub AtLeast : PeerEntry → PeerEntry → Type 0
AtLeast e f = f.success_count + e.fail_count ≤ e.success_count + f.fail_count

-- Every entry has at least the score of those behind it.
abbrev pub BestFirst : List PeerEntry → Type 0
BestFirst [] = Unit
BestFirst (e ∷ es) = All (AtLeast e) es × BestFirst es

beats-AtLeast : (f e : PeerEntry) → beats f e ≡ true → AtLeast f e
unfolding beats
beats-AtLeast f e h = ground arith

not_beats-AtLeast : (f e : PeerEntry) → beats f e ≡ false → AtLeast e f
unfolding beats
not_beats-AtLeast f e h = ground arith

AtLeast-trans : (e f g : PeerEntry) → AtLeast e f → AtLeast f g → AtLeast e g
AtLeast-trans e f g a b = omega arith

sweep_more :
    (e f : PeerEntry) (fs : List PeerEntry)
    → beats f e ≡ true
    → sweep e (f ∷ fs) ≡ ((sweep f fs).0, e ∷ (sweep f fs).1)
unfolding sweep
sweep_more e f fs more = rw (sweep, more) refl

sweep_less :
    (e f : PeerEntry) (fs : List PeerEntry)
    → beats f e ≡ false
    → sweep e (f ∷ fs) ≡ ((sweep e fs).0, f ∷ (sweep e fs).1)
unfolding sweep
sweep_less e f fs less = rw (sweep, less) refl

sweep-Perm : (e : PeerEntry) (fs : List PeerEntry) → Perm (e ∷ fs) ((sweep e fs).0 ∷ (sweep e fs).1)
unfolding sweep
sweep-Perm e [] = Perm.refl (e ∷ [])
sweep-Perm e (f ∷ fs) = elim (Bool-cases (beats f e)) [
  | inl more ↦
      rw (sweep_more e f fs more)
        (Perm.trans (Perm.cons e (sweep-Perm f fs)) (Perm.swap ((sweep f fs).0) e ((sweep f fs).1)))
  | inr less ↦ rw (sweep_less e f fs less) (
      Perm.trans (Perm.swap f e fs) (
        Perm.trans (Perm.cons f (sweep-Perm e fs)) (Perm.swap ((sweep e fs).0) f ((sweep e fs).1))))
]

sweep-All :
    (P : PeerEntry → Type 0) (e : PeerEntry) (fs : List PeerEntry)
    → P e
    → All P fs
    → P ((sweep e fs).0) × All P ((sweep e fs).1)
unfolding sweep
sweep-All P e [] pe pfs = (pe, pfs)
sweep-All P e (f ∷ fs) pe (pf, pfs) = elim (Bool-cases (beats f e)) [
  | inl more ↦
      rw (sweep_more e f fs more)
        (let (pbest, prest) = sweep-All P f fs pf pfs in (pbest, (pe, prest)))
  | inr less ↦
      rw (sweep_less e f fs less)
        (let (pbest, prest) = sweep-All P e fs pe pfs in (pbest, (pf, prest)))
]

sweep-best :
    (e : PeerEntry) (fs : List PeerEntry)
    → AtLeast ((sweep e fs).0) e × All (AtLeast ((sweep e fs).0)) ((sweep e fs).1)
unfolding sweep
sweep-best e [] = (omega arith, tt)
sweep-best e (f ∷ fs) = elim (Bool-cases (beats f e)) [
  | inl more ↦ rw (sweep_more e f fs more) (
      let (over, rest) = sweep-best f fs in
      let over_e = AtLeast-trans ((sweep f fs).0) f e over (beats-AtLeast f e more) in
      (over_e, (over_e, rest)))
  | inr less ↦ rw (sweep_less e f fs less) (
      let (over, rest) = sweep-best e fs in
      (over, (AtLeast-trans ((sweep e fs).0) e f over (not_beats-AtLeast f e less), rest)))
]

length-sweep : (e : PeerEntry) (fs : List PeerEntry) → length ((sweep e fs).1) ≡ length fs
unfolding sweep
length-sweep e [] = refl
length-sweep e (f ∷ fs) = elim (Bool-cases (beats f e)) [
  | inl more ↦ rw (sweep_more e f fs more) (ap suc (length-sweep f fs))
  | inr less ↦ rw (sweep_less e f fs less) (ap suc (length-sweep e fs))
]

exchange_sort-All :
    (P : PeerEntry → Type 0) (n : ℕ) (es : List PeerEntry) → All P es → All P (exchange_sort n es)
unfolding exchange_sort
exchange_sort-All P zero es pes = pes
exchange_sort-All P (suc n) [] pes = pes
exchange_sort-All P (suc n) (e ∷ es) (pe, pes) =
    let (pbest, prest) = sweep-All P e es pe pes in
    (pbest, exchange_sort-All P n ((sweep e es).1) prest)

exchange_sort-Perm : (n : ℕ) (es : List PeerEntry) → Perm es (exchange_sort n es)
unfolding exchange_sort
exchange_sort-Perm zero es = Perm.refl es
exchange_sort-Perm (suc n) [] = Perm.refl []
exchange_sort-Perm (suc n) (e ∷ es) =
    Perm.trans (sweep-Perm e es)
      (Perm.cons ((sweep e es).0) (exchange_sort-Perm n ((sweep e es).1)))

exchange_sort-BestFirst :
    (n : ℕ) (es : List PeerEntry) → length es ≤ n → BestFirst (exchange_sort n es)
unfolding exchange_sort
exchange_sort-BestFirst zero [] h = tt
exchange_sort-BestFirst zero (e ∷ es) h = ground arith
exchange_sort-BestFirst (suc n) [] h = tt
exchange_sort-BestFirst (suc n) (e ∷ es) h = (
  exchange_sort-All (AtLeast ((sweep e es).0)) n ((sweep e es).1) ((sweep-best e es).1),
  exchange_sort-BestFirst n ((sweep e es).1) (omega (arith, length-sweep e es)),
)

-- The sort of `loadCachedPeers` gives the entries of the cache in another order, each with at least
-- as many successes without its failures as those behind it.
pub exchange_sort-BestFirst-Perm :
    (cache : List PeerEntry)
    → BestFirst (exchange_sort (length cache) cache)
      × Perm cache (exchange_sort (length cache) cache)
exchange_sort-BestFirst-Perm cache = (
  exchange_sort-BestFirst (length cache) cache (omega arith),
  exchange_sort-Perm (length cache) cache,
)
