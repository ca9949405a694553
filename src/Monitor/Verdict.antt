-- ===== src/Monitor/Verdict.antt =====
-- What `CheckForPayments` decides about every submitted block, and the payments that it adds.
use doge_lucky_mining.Common.{
  ℕ, ◌+◌, ◌<◌, ◌≤◌, ◌≡◌, ap, sym, ◌∙◌, inl, inr, true, false, some, List, [], ◌∷◌, ◌++◌, arith,
  length, ltb, ◌==◌, append_assoc, append-nil, bytes_equal, bytes_equal_refl, bytes_equal→eq,
  Bool-cases,
}
use mathlib.Core.Path.{subst}
use doge_lucky_mining.Hex.{Text}
use doge_lucky_mining.Block.{BlockHeader}
use doge_lucky_mining.P2P.{P2PClient}
use doge_lucky_mining.Monitor.{
  MinedBlockInfo, P2PPayment, P2PPaymentMonitor, history_get, get_block_hash_at_height, settle,
  settle_known, check_block, check_blocks, check_at, check_for_payments, block_reward_for_height,
}
use doge_lucky_mining.Monitor.Settle.{Fixed, checked-Fixed, early-Fixed, ready, at_tip}

-- What a lookup of the height gives: the first entry, and the empty text if there is none.
pub data Stored (h : ℕ) : Text → List (ℕ × Text) → Type 0 where
  nowhere : Stored h [] []
  here : {t : Text} {m : List (ℕ × Text)} → Stored h t ((h, t) ∷ m)
  further :
      {k : ℕ} {t u : Text} {m : List (ℕ × Text)}
      → ¬ (k ≡ h)
      → Stored h t m
      → Stored h t ((k, u) ∷ m)

-- The payment of a block, of 10,000 DOGE.
abbrev pub payment_of : MinedBlockInfo → P2PPayment
payment_of b = record {
  block_height = b.height;
  block_hash = b.hash;
  value = 1000000000000;
  time = b.submit_time;
  confirmed = true;
}

-- A block before and after a check, and its new payments.
pub data Judged (tip : ℕ) (history : List (ℕ × Text))
    : MinedBlockInfo → MinedBlockInfo → List P2PPayment → Type 0 where
  decided : {b : MinedBlockInfo} → b.checked ≡ true → Judged tip history b b []
  early : {b : MinedBlockInfo} → b.checked ≡ false → tip < b.height + 2 → Judged tip history b b []
  unknown :
      {b : MinedBlockInfo}
      → b.checked ≡ false
      → b.height + 2 ≤ tip
      → Stored b.height [] history
      → Judged tip history b b []
  paid :
      {b : MinedBlockInfo}
      → b.checked ≡ false
      → b.height + 2 ≤ tip
      → Stored b.height b.hash history
      → 0 < length b.hash
      → Judged tip history b
          (record b { checked = true; confirmed = true; payment_seen = true })
          (payment_of b ∷ [])
  orphaned :
      {b : MinedBlockInfo} {t : Text}
      → b.checked ≡ false
      → b.height + 2 ≤ tip
      → Stored b.height t history
      → 0 < length t
      → ¬ (t ≡ b.hash)
      → Judged tip history b (record b { checked = true; confirmed = false }) []

-- All blocks in their order, with the new payments in the order of their blocks.
pub data AllJudged (tip : ℕ) (history : List (ℕ × Text))
    : List MinedBlockInfo → List MinedBlockInfo → List P2PPayment → Type 0 where
  no_block : AllJudged tip history [] [] []
  one_more :
      {b b' : MinedBlockInfo} {bs bs' : List MinedBlockInfo} {new more : List P2PPayment}
      → Judged tip history b b' new
      → AllJudged tip history bs bs' more
      → AllJudged tip history (b ∷ bs) (b' ∷ bs') (new ++ more)

history_get-Stored : (h : ℕ) (m : List (ℕ × Text)) → Stored h (history_get h m) m
unfolding history_get
history_get-Stored h [] = nowhere
history_get-Stored h ((k, u) ∷ m) = elim (Bool-cases (k == h)) [
  | inl e ↦
      let same : h ≡ k = ground arith in rw e (subst (λ (j : ℕ). Stored h u ((j, u) ∷ m)) same here)
  | inr e ↦
      let other : ¬ (k ≡ h) = λ p. ground arith in rw e (further other (history_get-Stored h m))
]

module _ (tip : ℕ) (p : P2PClient) where
  settle-Judged :
      (b : MinedBlockInfo) (ps : List P2PPayment) (t : Text)
      → b.checked ≡ false
      → b.height + 2 ≤ tip
      → Stored b.height t p.tip_history
      → 0 < length t
      → (new : List P2PPayment) × Judged tip p.tip_history b (settle t b ps).0 new
        × ((settle t b ps).1 ≡ ps ++ new)
  unfolding settle block_reward_for_height
  settle-Judged b ps t c deep s full = elim (Bool-cases (bytes_equal t b.hash)) [
    | inl e ↦
        let same : t ≡ b.hash = bytes_equal→eq t b.hash e in
        rw e (
          payment_of b ∷ [],
          paid c deep (subst (λ u. Stored b.height u p.tip_history) same s)
              (subst (λ u. 0 < length u) same full),
          ground arith,
        )
    | inr e ↦ rw e ([], orphaned c deep s full (differ e), sym (append-nil ps))
  ]
    where
      true_false : true ≡ false → ⊥
      true_false q = cc

      differ : bytes_equal t b.hash ≡ false → ¬ (t ≡ b.hash)
      differ e q =
          absurd (
            true_false (sym (bytes_equal_refl b.hash) ∙ ap (λ u. bytes_equal u b.hash) (sym q) ∙ e))

  settle_known-Judged :
      (b : MinedBlockInfo) (ps : List P2PPayment) (t : Text)
      → b.checked ≡ false
      → b.height + 2 ≤ tip
      → Stored b.height t p.tip_history
      → (new : List P2PPayment) × Judged tip p.tip_history b (settle_known t b ps).0 new
        × ((settle_known t b ps).1 ≡ ps ++ new)
  unfolding settle_known
  settle_known-Judged b ps [] c deep s = ([], unknown c deep s, sym (append-nil ps))
  settle_known-Judged b ps (x ∷ t) c deep s = settle-Judged b ps (x ∷ t) c deep s (omega arith)

  check_block-Judged :
      (b : MinedBlockInfo) (ps : List P2PPayment)
      → (new : List P2PPayment) × Judged tip p.tip_history b (check_block tip p b ps).0 new
        × ((check_block tip p b ps).1 ≡ ps ++ new)
  unfolding Fixed get_block_hash_at_height
  check_block-Judged b ps = elim (Bool-cases b.checked) [
    | inl c ↦ rw (checked-Fixed tip p b c ps) ([], decided c, sym (append-nil ps))
    | inr c ↦ elim (Bool-cases (ltb tip (b.height + 2))) [
      | inl e ↦ rw (early-Fixed tip p b c e ps) ([], early c (ground arith), sym (append-nil ps))
      | inr e ↦ rw (ready tip p b ps c e) (
          settle_known-Judged b ps (history_get b.height p.tip_history) c (ground arith)
            (history_get-Stored b.height p.tip_history))
    ]
  ]

  check_blocks-AllJudged :
      (bs : List MinedBlockInfo) (ps : List P2PPayment)
      → (new : List P2PPayment) × AllJudged tip p.tip_history bs (check_blocks tip p bs ps).0 new
        × ((check_blocks tip p bs ps).1 ≡ ps ++ new)
  unfolding check_blocks
  check_blocks-AllJudged [] ps = ([], no_block, sym (append-nil ps))
  check_blocks-AllJudged (b ∷ bs) ps =
      let (new, j, e) = check_block-Judged b ps in
      let (more, js, f) = check_blocks-AllJudged bs (check_block tip p b ps).1 in
      (new ++ more, one_more j js, f ∙ ap (λ qs. qs ++ more) e ∙ append_assoc ps new more)

-- For a client with a tip `CheckForPayments` decides just the submitted blocks that it has not decided
-- before, that are at least two below the tip, and for whose height the history has a hash: one with
-- that hash is confirmed and paid, another one is an orphan. Every other block stays as it is. The new
-- payments, in the order of their blocks and behind the old ones, have the height, the hash and the time of
-- their block and the value 1000000000000, and the height of the check is that of the tip.
pub check_for_payments-AllJudged :
    (p : P2PClient) (pm : P2PPaymentMonitor) (tip : BlockHeader)
    → p.best_header ≡ some tip
    → (bs : List MinedBlockInfo) × (new : List P2PPayment) × AllJudged tip.height p.tip_history
        pm.submitted_blocks bs new
      × (check_for_payments (some p) pm ≡ record pm {
        submitted_blocks = bs;
        payments = pm.payments ++ new;
        last_check_height = tip.height;
      })
unfolding check_at
check_for_payments-AllJudged p pm tip h =
    let out = check_blocks tip.height p pm.submitted_blocks pm.payments in
    let (new, js, e) = check_blocks-AllJudged tip.height p pm.submitted_blocks pm.payments in
    (
      out.0,
      new,
      js,
      at_tip p pm tip h
          ∙ ap
              (λ ps. record pm {
                submitted_blocks = out.0;
                payments = ps;
                last_check_height = tip.height;
              })
              e,
    )
