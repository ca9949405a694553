-- ===== src/Mining/Parallel/Laws.antt =====
-- What a run of the goroutines can put on the channel, and what `mineParallel` returns.
use doge_lucky_mining.Common.{
  ℕ, zero, suc, ◌+◌, ◌≡◌, ◌≢◌, refl, sym, ap, ◌∙◌, ◌⊎◌, inl, inr, Bool, true, false, ◌&&◌, Option,
  none, some, List, [], ◌∷◌, ◌++◌, arith, get_elem?, set, All, if◌then◌else◌, Bool-cases,
  Option-cases,
}
use mathlib.Core.Path.{subst}
use doge_lucky_mining.Bytes.{Bytes}
use doge_lucky_mining.HashCompare.{hash_meets_target_le, reverse_bytes_in_place}
use doge_lucky_mining.Block.{Block}
use mathlib.Core.Bool.{false≢true}
use doge_lucky_mining.Mining.{
  not_found, ScryptMiner, MiningResult, hash_of_nonce, target_bytes_le, precompute_header_base,
}
use doge_lucky_mining.Mining.Worker.{
  SearchMode, backward, strided, ranged, Stage, outer, inner, offered, done, Worker, Shared, Job,
  workers_from, worker_of, nonce_of, nonce_meets, step, step_at, step_outer, step_inner, step_offer,
  try_nonce, end_batch, finish, start_batch, goes_on, has_nonces, in_batch,
}
use doge_lucky_mining.Mining.Parallel.{
  step_of, run, first_valid, returned, running, all_done, collect, job_of, at_start, mine_parallel,
}

-- Updating a place of a list.
module _ {A : Type 0} (P : A → Type 0) where
  All-get : (ws : List A) (i : ℕ) (w : A) → All P ws → get_elem? ws i ≡ some w → P w
  All-get [] i w h e = absurd (no_place e)
    where
      no_place : {a : A} → ◌≡◌ {A = Option A} none (some a) → ⊥
      no_place e = cc
  All-get (x ∷ ws) zero w h e = subst P (same e) h.0
    where
      same : {y : A} → ◌≡◌ {A = Option A} (some x) (some y) → x ≡ y
      same e = cc
  All-get (x ∷ ws) (suc i) w h e = All-get ws i w h.1 e

  All-set : (ws : List A) (i : ℕ) (w : A) → All P ws → P w → All P (set ws i w)
  All-set [] i w h p = tt
  All-set (x ∷ ws) zero w h p = (p, h.1)
  All-set (x ∷ ws) (suc i) w h p = (h.0, All-set ws i w h.1 p)

module _ (scrypt : Bytes → Bytes) (j : Job) where
  -- A nonce that is about to be offered has a hash that meets the target.
  abbrev pub OfferMeets : Stage → Type 0
  OfferMeets outer = Unit {0}
  OfferMeets (inner i bound) = Unit {0}
  OfferMeets (offered nonce) = nonce_meets scrypt j nonce ≡ true
  OfferMeets done = Unit {0}

  -- Nothing was sent, or one nonce whose hash meets the target, with that hash in reverse.
  abbrev pub Sent : Shared → Type 0
  Sent s =
      ((s.found ≡ false) × (s.results ≡ []))
      ⊎ ((nonce : ℕ) × (nonce_meets scrypt j nonce ≡ true)
          × (s.found ≡ true)
          × (s.results
              ≡ (nonce, reverse_bytes_in_place (hash_of_nonce scrypt j.header_base nonce)) ∷ []))

  start_batch-OfferMeets : (mode : SearchMode) (w : Worker) → OfferMeets (start_batch mode w)
  unfolding start_batch
  start_batch-OfferMeets backward w = tt
  start_batch-OfferMeets strided w = tt
  start_batch-OfferMeets ranged w = tt

  step_outer-keeps :
      (s : Shared) (w : Worker)
      → OfferMeets (step_outer j s w).1.stage
        × ((step_outer j s w).0.found ≡ s.found)
        × ((step_outer j s w).0.results ≡ s.results)
  unfolding step_outer finish
  step_outer-keeps s w = elim (Bool-cases (goes_on j s w && has_nonces j.mode w)) [
    | inl e ↦ rw e (start_batch-OfferMeets j.mode w, refl, refl)
    | inr e ↦ rw e (tt, refl, refl)
  ]

  end_batch-outer :
      (mode : SearchMode) (w : Worker) (bound : ℕ) → (end_batch j mode w bound).stage ≡ outer
  unfolding end_batch
  end_batch-outer backward w bound = refl
  end_batch-outer strided w bound = refl
  end_batch-outer ranged w bound = refl

  try_nonce-OfferMeets :
      (w : Worker) (i bound : ℕ) → OfferMeets (try_nonce scrypt j w i bound).stage
  unfolding try_nonce
  try_nonce-OfferMeets w i bound = elim (Bool-cases (nonce_meets scrypt j (nonce_of j.mode w i))) [
    | inl e ↦ rw e e
    | inr e ↦ rw e tt
  ]

  step_inner-keeps :
      (s : Shared) (w : Worker) (i bound : ℕ)
      → OfferMeets (step_inner scrypt j s w i bound).1.stage
        × ((step_inner scrypt j s w i bound).0 ≡ s)
  unfolding step_inner
  step_inner-keeps s w i bound = elim (Bool-cases (in_batch j.mode i bound && goes_on j s w)) [
    | inl e ↦ rw e (try_nonce-OfferMeets w i bound, refl)
    | inr e ↦ rw e (rw (end_batch-outer j.mode w bound) tt, refl)
  ]

  sent : ℕ → ℕ × Bytes
  sent nonce = (nonce, reverse_bytes_in_place (hash_of_nonce scrypt j.header_base nonce))

  step_offer-Sent :
      (s : Shared) (w : Worker) (nonce : ℕ)
      → nonce_meets scrypt j nonce ≡ true
      → Sent s
      → Sent (step_offer scrypt j s w nonce).0
  unfolding step_offer sent
  step_offer-Sent s w nonce h (inl (free, empty)) =
      rw free (inr (nonce, h, refl, ap (λ rs. rs ++ (sent nonce ∷ [])) empty))
  step_offer-Sent s w nonce h (inr (first, meets, taken, sent)) =
      rw taken (inr (first, meets, refl, sent))

  keep_Sent : (s s' : Shared) → s'.found ≡ s.found → s'.results ≡ s.results → Sent s → Sent s'
  keep_Sent s s' f r (inl (free, empty)) = inl (f ∙ free, r ∙ empty)
  keep_Sent s s' f r (inr (first, meets, taken, sent)) = inr (first, meets, f ∙ taken, r ∙ sent)

  step_at-keeps :
      (s : Shared) (w : Worker) (stage : Stage)
      → w.stage ≡ stage
      → OfferMeets stage
      → Sent s
      → OfferMeets (step_at scrypt j s w stage).1.stage × Sent (step_at scrypt j s w stage).0
  unfolding step_at
  step_at-keeps s w outer e h sent =
      let (o, f, r) = step_outer-keeps s w in (o, keep_Sent s (step_outer j s w).0 f r sent)
  step_at-keeps s w (inner i bound) e h sent =
      let (o, same) = step_inner-keeps s w i bound in (o, subst Sent (sym same) sent)
  step_at-keeps s w (offered nonce) e h sent =
      (unfold step_offer in tt, step_offer-Sent s w nonce h sent)
  step_at-keeps s w done e h sent = (subst OfferMeets (sym e) tt, sent)

  abbrev pub Kept : Shared × List Worker → Type 0
  Kept state = All (λ w. OfferMeets w.stage) state.1 × Sent state.0

  step_of-Kept :
      (id : ℕ) (s : Shared) (ws : List Worker) → Kept (s, ws) → Kept (step_of scrypt j id (s, ws))
  unfolding step_of step
  step_of-Kept id s ws (all, sent) = elim (Option-cases (get_elem? ws id)) [
    | inl e ↦ rw (e, step_of) (all, sent)
    | inr (w, e) ↦
        let meets = All-get (λ v. OfferMeets v.stage) ws id w all e in
        let (o, sent') = step_at-keeps s w w.stage refl meets sent in
        rw (e, step_of) (All-set (λ v. OfferMeets v.stage) ws id (step scrypt j s w).1 all o, sent')
  ]

  pub run-Kept :
      (schedule : List ℕ) (s : Shared) (ws : List Worker)
      → Kept (s, ws)
      → Kept (run scrypt j schedule (s, ws))
  unfolding run
  run-Kept [] s ws h = h
  run-Kept (id ∷ schedule) s ws h =
      let next = step_of scrypt j id (s, ws) in
      run-Kept schedule next.0 next.1 (step_of-Kept id s ws h)

  pub workers_from-OfferMeets :
      (m : ScryptMiner) (base k id : ℕ) → All (λ w. OfferMeets w.stage) (workers_from m base k id)
  unfolding workers_from worker_of
  workers_from-OfferMeets m base zero id = tt
  workers_from-OfferMeets m base (suc k) id = (tt, workers_from-OfferMeets m base k (id + 1))

returned_eq : {a b : MiningResult} → returned a ≡ returned b → a ≡ b
returned_eq e = cc

none_found :
    (b : Bool) (n : ℕ) (r : MiningResult)
    → (if b then returned (not_found n) else running) ≡ returned r
    → r.found ≡ true
    → ⊥
none_found true n r e f = false≢true (ap (λ (x : MiningResult). x.found) (returned_eq e) ∙ f)
none_found false n r e f = cc

collect_found :
    (t : Bytes) (s : Shared) (ws : List Worker) (r : MiningResult)
    → collect t (s, ws) ≡ returned r
    → r.found ≡ true
    → first_valid t s.results ≡ some (r.nonce, r.hash)
unfolding collect
collect_found t s ws r e f = go (first_valid t s.results) refl
  where
    go : (o : Option (ℕ × Bytes)) → first_valid t s.results ≡ o → o ≡ some (r.nonce, r.hash)
    go none q = absurd (none_found (all_done ws) s.total_hashes r (rw (q, collect) at e) f)
    go (some (n, h)) q =
        ap (λ (x : MiningResult). some (x.nonce, x.hash)) (returned_eq (rw (q, collect) at e))

first_valid_single :
    (t : Bytes) (n n' : ℕ) (h h' : Bytes)
    → first_valid t ((n, h) ∷ []) ≡ some (n', h')
    → (n' ≡ n) × (h' ≡ h) × (n ≢ 0) × (hash_meets_target_le h t ≡ true)
unfolding first_valid
first_valid_single t n n' h h' e = ground arith

-- A block that `mineParallel` reports, whatever the order of the threads' steps, has a nonce
-- other than 0 for which the header's scrypt hash meets the target; the hash it comes with is that hash
-- in reverse, and the reversed bytes meet the target as well.
pub mine_parallel_found :
    (scrypt : Bytes → Bytes) (m : ScryptMiner) (base : ℕ) (schedule : List ℕ) (block : Block)
    (target : ℕ) (t : Bytes) (r : MiningResult)
    → target_bytes_le target ≡ some t
    → mine_parallel scrypt m base schedule block target ≡ returned r
    → r.found ≡ true
    → (r.nonce ≢ 0)
      × (hash_meets_target_le (hash_of_nonce scrypt (precompute_header_base block) r.nonce) t
          ≡ true)
      × (r.hash
          ≡ reverse_bytes_in_place (hash_of_nonce scrypt (precompute_header_base block) r.nonce))
      × (hash_meets_target_le r.hash t ≡ true)
unfolding mine_parallel job_of nonce_meets
mine_parallel_found scrypt m base schedule block target t r te e f =
    let j = job_of m block t in
    let state = run scrypt j schedule (at_start m base) in
    let kept =
      run-Kept scrypt j schedule (at_start m base).0 (at_start m base).1
        (workers_from-OfferMeets scrypt j m base m.thread_count 0, inl (refl, refl)) in
    let valid = collect_found t state.0 state.1 r (rw (te, mine_parallel) at e) f in
    elim kept.1 [
      | inl (free, empty) ↦ absurd (no_valid (rw empty at valid))
      | inr (nonce, meets, taken, sent) ↦
          let (n, h, nonzero, valid_hash) =
            first_valid_single t nonce r.nonce
              (reverse_bytes_in_place (hash_of_nonce scrypt (precompute_header_base block) nonce))
              r.hash (rw sent at valid) in
          ((λ z. nonzero (sym n ∙ z)), rw n meets, rw n h, rw h valid_hash)
    ]
  where
    no_valid : {x : ℕ × Bytes} → first_valid t [] ≡ some x → ⊥
    no_valid q = unfold first_valid in cc
