-- ===== src/HeaderFetcher/Progress.antt =====
-- How the fetcher follows a node that answers.
use doge_lucky_mining.Common.{
  ℕ, zero, suc, ◌+◌, ◌-◌, ◌*◌, ◌≤◌, ◌<◌, ◌≡◌, refl, ap, ◌∙◌, inl, inr, arith, true, Option, some,
  ltb, Bool-cases, le→not_ltb, lt→ltb, ltb→lt,
}
use Prim.Native.Nat.{min}
use doge_lucky_mining.Block.{BlockHeader}
use doge_lucky_mining.HeaderFetcher.{
  HeaderFetcher, get_header, fetch_loop, start_height, end_height, new_last, is_above, fetch_round,
  fetch_rounds,
}
use doge_lucky_mining.HeaderFetcher.Loop.{Answers, loop_keeps, loop_all}

end_height-min : (count l : ℕ) → l < count → end_height count (l + 1) ≡ min count (l + 21)
unfolding end_height
end_height-min count l h = ground arith

-- What a round does that starts above a last height.
pub round_above :
    (fetch : ℕ → Option BlockHeader) (count l : ℕ) (f : HeaderFetcher)
    → f.last_height ≡ some l
    → l < count
    → let end_at = min count (l + 21) in
      let out = fetch_loop fetch (end_at + 1 - (l + 1)) (l + 1) 0 (f.headers, 0) in
      fetch_round fetch count f
      ≡ record { headers = out.0; last_height = new_last count (l + 1) end_at out.1 (some l) }
unfolding fetch_round start_height is_above
round_above fetch count l f e h = rw e (rw (end_height-min count l h, lt→ltb l count h) refl)

pub round_idle :
    (fetch : ℕ → Option BlockHeader) (count l : ℕ) (f : HeaderFetcher)
    → f.last_height ≡ some l
    → count ≤ l
    → fetch_round fetch count f ≡ f
unfolding fetch_round is_above
round_idle fetch count l f e h = rw e (rw (le→not_ltb l count h) refl)

new_last_grows :
    (count l end_at s : ℕ)
    → l < end_at
    → (l' : ℕ) × (new_last count (l + 1) end_at s (some l) ≡ some l') × (l ≤ l')
unfolding new_last
new_last_grows count l end_at s h = elim (Bool-cases (ltb 0 s)) [
  | inl e ↦ (l + 1 + s - 1, rw e refl, omega arith)
  | inr e ↦ elim (Bool-cases (ltb end_at count)) [
    | inl k ↦ (end_at, rw (e, k) refl, omega arith)
    | inr k ↦ (l, rw (e, k) refl, omega arith)
  ]
]

-- A round leaves what stands at heights up to the last one, and the last one does not go down.
pub round_keeps :
    (fetch : ℕ → Option BlockHeader) (count l k : ℕ) (f : HeaderFetcher)
    → f.last_height ≡ some l
    → k ≤ l
    → (l' : ℕ) × ((fetch_round fetch count f).last_height ≡ some l')
      × (l ≤ l')
      × (get_header k (fetch_round fetch count f).headers ≡ get_header k f.headers)
round_keeps fetch count l k f e u = elim (Bool-cases (ltb l count)) [
  | inr idle ↦ rw (round_idle fetch count l f e (ground arith)) (l, e, omega arith, refl)
  | inl above ↦
      let less : l < count = ltb→lt l count above in
      let end_at = min count (l + 21) in
      let out = fetch_loop fetch (end_at + 1 - (l + 1)) (l + 1) 0 (f.headers, 0) in
      let (l', same, le) = new_last_grows count l end_at out.1 (omega arith) in
      rw (round_above fetch count l f e less) (
        l',
        same,
        le,
        loop_keeps fetch (end_at + 1 - (l + 1)) (l + 1) 0 0 k f.headers (inl (omega arith)),
      )
]

rounds_keep :
    (fetch : ℕ → Option BlockHeader) (count n l k : ℕ) (f : HeaderFetcher)
    → f.last_height ≡ some l
    → k ≤ l
    → get_header k (fetch_rounds fetch count n f).headers ≡ get_header k f.headers
unfolding fetch_rounds
rounds_keep fetch count zero l k f e u = refl
rounds_keep fetch count (suc n) l k f e u =
    let (l', e', le, same) = round_keeps fetch count l k f e u in
    rounds_keep fetch count n l' k (fetch_round fetch count f) e' (omega arith) ∙ same

zero_add : (n : ℕ) → 0 + n ≡ n
zero_add n = omega arith

-- A round of a node that answers for every height up to its count.
round_all :
    (fetch : ℕ → Option BlockHeader) (count l : ℕ) (f : HeaderFetcher)
    → f.last_height ≡ some l
    → l ≤ count
    → Answers fetch (l + 1) (count - l)
    → ((fetch_round fetch count f).last_height ≡ some (min count (l + 21)))
      × ((k : ℕ)
          → l < k
          → k ≤ min count (l + 21)
          → get_header k (fetch_round fetch count f).headers ≡ fetch k)
unfolding new_last
round_all fetch count l f e u a = elim (Bool-cases (ltb l count)) [
  | inr idle ↦
      let stop : count ≤ l = ground arith in
      let same : l ≡ min count (l + 21) = omega arith in
      rw (round_idle fetch count l f e stop) (e ∙ ap some same, (λ k lo hi. absurd (omega arith)))
  | inl above ↦
      let less : l < count = ltb→lt l count above in
      let end_at = min count (l + 21) in
      let left = end_at + 1 - (l + 1) in
      let (count_eq, got) =
        loop_all fetch left (l + 1) 0 0 f.headers (λ k lo hi. a k lo (omega arith)) in
      let positive : ltb 0 left ≡ true = lt→ltb 0 left (omega arith) in
      let last : l + 1 + left - 1 ≡ end_at = omega arith in
      rw (round_above fetch count l f e less) (
        rw (count_eq ∙ zero_add left) (rw positive (ap some last)),
        (λ k lo hi. got k (omega arith) (omega arith)),
      )
]

-- A fetcher that follows a node with a fixed count of blocks, which answers for every height up to that
-- count, has after `n` rounds every header from its last height on up to 21 heights for each
-- round or to the count, and that is its last height. With rounds enough it has caught up.
pub fetch_rounds_complete :
    (fetch : ℕ → Option BlockHeader) (count n l : ℕ) (f : HeaderFetcher)
    → f.last_height ≡ some l
    → l ≤ count
    → Answers fetch (l + 1) (count - l)
    → ((fetch_rounds fetch count n f).last_height ≡ some (min count (l + 21 * n)))
      × ((k : ℕ)
          → l < k
          → k ≤ min count (l + 21 * n)
          → get_header k (fetch_rounds fetch count n f).headers ≡ fetch k)
unfolding fetch_rounds
fetch_rounds_complete fetch count zero l f e u a =
    let same : l ≡ min count (l + 21 * 0) = omega arith in
    (e ∙ ap some same, (λ k lo hi. absurd (omega arith)))
fetch_rounds_complete fetch count (suc n) l f e u a =
    let f' = fetch_round fetch count f in
    let l' = min count (l + 21) in
    let (e', got) = round_all fetch count l f e u a in
    let (last, rest) =
      fetch_rounds_complete fetch count n l' f' e' (omega arith)
        (λ k lo hi. a k (omega arith) (omega arith)) in
    let sum : min count (l' + 21 * n) ≡ min count (l + 21 * suc n) = omega arith in
    (
      last ∙ ap some sum,
      (λ k lo hi. elim (Bool-cases (ltb l' k)) [
        | inl late ↦ rest k (ltb→lt l' k late) (omega arith)
        | inr early ↦
            let le : k ≤ l' = ground arith in rounds_keep fetch count n l' k f' e' le ∙ got k lo le
      ]),
    )
