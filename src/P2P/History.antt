-- ===== src/P2P/History.antt =====
-- The size of the history of block hashes.
use doge_lucky_mining.Common.{
  ℕ, zero, suc, ◌+◌, ◌-◌, ◌<◌, ◌≤◌, ◌≡◌, ◌≢◌, refl, ap, inl, inr, List, [], ◌∷◌, arith, length, All,
  ltb, ◌==◌, if◌then◌else◌, Bool-cases, ==_iff,
}
use mathlib.Core.Path.{subst}
use doge_lucky_mining.Hex.{Text}
use doge_lucky_mining.HashCompare.{hash_to_display_hex}
use doge_lucky_mining.Block.{BlockHeader}
use doge_lucky_mining.P2P.Headers.{put_history, drop_below, record_history}
use doge_lucky_mining.P2P.Advance.{Numbered}
use doge_lucky_mining.P2P.Accepted.{history}

abbrev pub keys : List (ℕ × Text) → List ℕ
keys [] = []
keys ((k, t) ∷ m) = k ∷ keys m

abbrev pub Distinct : List ℕ → Type 0
Distinct [] = Unit
Distinct (k ∷ ks) = All (λ j. j ≢ k) ks × Distinct ks

without : ℕ → List ℕ → List ℕ
without v [] = []
without v (k ∷ ks) = let rest = without v ks in if k == v then rest else k ∷ rest

All-without :
    (P : ℕ → Type 0) (v : ℕ) (ks : List ℕ) → All P ks → All (λ k. P k × (k ≢ v)) (without v ks)
unfolding without
All-without P v [] a = tt
All-without P v (k ∷ ks) a = elim (Bool-cases (k == v)) [
  | inl e ↦ rw e (All-without P v ks a.1)
  | inr e ↦ rw e ((a.0, λ q. ground (arith, q)), All-without P v ks a.1)
]

All-keep : (P : ℕ → Type 0) (v : ℕ) (ks : List ℕ) → All P ks → All P (without v ks)
unfolding without
All-keep P v [] a = tt
All-keep P v (k ∷ ks) a = elim (Bool-cases (k == v)) [
  | inl e ↦ rw e (All-keep P v ks a.1)
  | inr e ↦ rw e (a.0, All-keep P v ks a.1)
]

Distinct-without : (v : ℕ) (ks : List ℕ) → Distinct ks → Distinct (without v ks)
unfolding without
Distinct-without v [] d = tt
Distinct-without v (k ∷ ks) d = elim (Bool-cases (k == v)) [
  | inl e ↦ rw e (Distinct-without v ks d.1)
  | inr e ↦ rw e (All-keep (λ j. j ≢ k) v ks d.0, Distinct-without v ks d.1)
]

length-without_absent :
    (v : ℕ) (ks : List ℕ) → All (λ j. j ≢ v) ks → length (without v ks) ≡ length ks
unfolding without
length-without_absent v [] a = refl
length-without_absent v (k ∷ ks) a = ground (arith, length-without_absent v ks a.1, a.0)

length-without : (v : ℕ) (ks : List ℕ) → Distinct ks → length ks ≤ suc (length (without v ks))
unfolding without
length-without v [] d = omega arith
length-without v (k ∷ ks) d = elim (Bool-cases (k == v)) [
  | inl e ↦ rw e (omega (arith, length-without_absent v ks (rw ((==_iff k v).0 e) at d.0)))
  | inr e ↦ rw e (omega (arith, length-without v ks d.1))
]

narrow :
    (a c : ℕ) (ks : List ℕ)
    → All (λ k. ((a ≤ k) × (k < a + suc c)) × (k ≢ a + c)) ks
    → All (λ k. (a ≤ k) × (k < a + c)) ks
narrow a c [] h = tt
narrow a c (k ∷ ks) h = (omega arith, narrow a c ks h.1)

-- Distinct numbers in a range of `c` are at most `c`.
pigeonhole :
    (c a : ℕ) (ks : List ℕ) → Distinct ks → All (λ k. (a ≤ k) × (k < a + c)) ks → length ks ≤ c
pigeonhole c a [] d h = omega arith
pigeonhole zero a (k ∷ ks) d h = absurd (omega arith)
pigeonhole (suc c) a (k ∷ ks) d h = omega (
  arith,
  length-without (a + c) (k ∷ ks) d,
  pigeonhole c a (without (a + c) (k ∷ ks)) (Distinct-without (a + c) (k ∷ ks) d)
      (narrow a c _ (All-without _ (a + c) (k ∷ ks) h)),
)

All-put :
    (P : ℕ → Type 0) (h : ℕ) (t : Text) (m : List (ℕ × Text))
    → P h
    → All P (keys m)
    → All P (keys (put_history h t m))
unfolding put_history
All-put P h t [] p a = (p, tt)
All-put P h t ((k, u) ∷ m) p a = elim (Bool-cases (k == h)) [
  | inl e ↦ rw e (p, a.1)
  | inr e ↦ rw e (a.0, All-put P h t m p a.1)
]

Distinct-put :
    (h : ℕ) (t : Text) (m : List (ℕ × Text))
    → Distinct (keys m)
    → Distinct (keys (put_history h t m))
unfolding put_history
Distinct-put h t [] d = (tt, tt)
Distinct-put h t ((k, u) ∷ m) d = elim (Bool-cases (k == h)) [
  | inl e ↦ rw e (rw ((==_iff k h).0 e) at d)
  | inr e ↦ rw e (All-put (λ j. j ≢ k) h t m (λ q. ground (arith, q)) d.0, Distinct-put h t m d.1)
]

All-drop_below :
    (P : ℕ → Type 0) (h : ℕ) (m : List (ℕ × Text))
    → All P (keys m)
    → All (λ k. P k × (h ≤ k + 500)) (keys (drop_below h m))
unfolding drop_below
All-drop_below P h [] a = tt
All-drop_below P h ((k, t) ∷ m) a = elim (Bool-cases (ltb (k + 500) h)) [
  | inl e ↦ rw e (All-drop_below P h m a.1)
  | inr e ↦ rw e ((a.0, ground arith), All-drop_below P h m a.1)
]

All-drop_below_keep :
    (P : ℕ → Type 0) (h : ℕ) (m : List (ℕ × Text)) → All P (keys m) → All P (keys (drop_below h m))
unfolding drop_below
All-drop_below_keep P h [] a = tt
All-drop_below_keep P h ((k, t) ∷ m) a = elim (Bool-cases (ltb (k + 500) h)) [
  | inl e ↦ rw e (All-drop_below_keep P h m a.1)
  | inr e ↦ rw e (a.0, All-drop_below_keep P h m a.1)
]

Distinct-drop_below :
    (h : ℕ) (m : List (ℕ × Text)) → Distinct (keys m) → Distinct (keys (drop_below h m))
unfolding drop_below
Distinct-drop_below h [] d = tt
Distinct-drop_below h ((k, t) ∷ m) d = elim (Bool-cases (ltb (k + 500) h)) [
  | inl e ↦ rw e (Distinct-drop_below h m d.1)
  | inr e ↦ rw e (All-drop_below_keep (λ j. j ≢ k) h m d.0, Distinct-drop_below h m d.1)
]

length-keys : (m : List (ℕ × Text)) → length (keys m) ≡ length m
length-keys [] = refl
length-keys ((k, t) ∷ m) = ap suc (length-keys m)

-- One entry for a height, no height above `n`, at most 501 entries.
pub record HistoryFits (n : ℕ) (m : List (ℕ × Text)) : Type 0 where
  pub distinct : Distinct (keys m)
  pub bounded : All (λ k. k ≤ n) (keys m)
  pub small : length m ≤ 501

raise : (n h : ℕ) (ks : List ℕ) → n ≤ h → All (λ k. k ≤ n) ks → All (λ k. k ≤ h) ks
raise n h [] le a = tt
raise n h (k ∷ ks) le a = (omega arith, raise n h ks le a.1)

window :
    (h : ℕ) (ks : List ℕ)
    → All (λ k. (k ≤ h) × (h ≤ k + 500)) ks
    → All (λ k. (h - 500 ≤ k) × (k < (h - 500) + 501)) ks
window h [] a = tt
window h (k ∷ ks) a = (omega arith, window h ks a.1)

record_history-HistoryFits :
    (n : ℕ) (h : BlockHeader) (m : List (ℕ × Text))
    → n ≤ h.height
    → HistoryFits n m
    → HistoryFits h.height (record_history h m)
unfolding record_history
record_history-HistoryFits n h m le f =
    let m' = put_history h.height (hash_to_display_hex h.hash) m in
    let d : Distinct (keys m') = Distinct-put h.height _ m f.distinct in
    let b : All (λ k. k ≤ h.height) (keys m') =
      All-put (λ k. k ≤ h.height) h.height _ m (omega arith)
        (raise n h.height (keys m) le f.bounded) in
    elim (Bool-cases (ltb 500 (length m'))) [
      | inl e ↦ rw e (record {
        distinct = Distinct-drop_below h.height m' d;
        bounded = All-drop_below_keep _ h.height m' b;
        small = omega (
          arith,
          length-keys (drop_below h.height m'),
          pigeonhole 501 (h.height - 500) _ (Distinct-drop_below h.height m' d)
              (window h.height _ (All-drop_below _ h.height m' b)),
        );
      })
      | inr e ↦ rw e (record { distinct = d; bounded = b; small = ground arith })
    ]

-- Recording a chain of headers of consecutive heights keeps the history to one entry for a height, no
-- height above the last, and at most 501 entries.
pub history-HistoryFits :
    (n : ℕ) (hs : List BlockHeader) (m : List (ℕ × Text))
    → Numbered n hs
    → HistoryFits n m
    → HistoryFits (n + length hs) (history hs m)
history-HistoryFits n [] m k f = rw (zero_right n) f
  where
    zero_right : (n : ℕ) → n + 0 ≡ n
    zero_right n = omega arith
history-HistoryFits n (h ∷ hs) m k f =
    let g = history-HistoryFits (n + 1) hs (record_history h m) k.1 (
      subst (λ j. HistoryFits j (record_history h m)) k.0
        (record_history-HistoryFits n h m (omega arith) f)) in
    rw (regroup n (length hs)) g
  where
    regroup : (n l : ℕ) → n + suc l ≡ n + 1 + l
    regroup n l = omega arith
