-- ===== src/Monitor/Single.antt =====
-- The check of the first block that a monitor is given.
use doge_lucky_mining.Common.{
  ℕ, ◌+◌, ◌≤◌, ◌<◌, ◌≡◌, refl, ◌↔◌, inl, inr, true, false, some, List, [], ◌∷◌, arith, length,
  Bool-cases, bytes_equal, le→not_ltb,
}
use doge_lucky_mining.Hex.{Text}
use doge_lucky_mining.Block.{BlockHeader}
use doge_lucky_mining.P2P.{P2PClient}
use doge_lucky_mining.Monitor.{
  MinedBlockInfo, P2PPayment, P2PPaymentMonitor, track_submitted_block, keep_last, settle,
  settle_known, check_block, check_blocks, check_at, check_for_payments, get_stats,
  get_block_hash_at_height, count_confirmed,
}
use doge_lucky_mining.Monitor.Settle.{at_tip}

known :
    (t : Text) (b : MinedBlockInfo) (ps : List P2PPayment)
    → 0 < length t
    → settle_known t b ps ≡ settle t b ps
unfolding settle_known
known [] b ps h = absurd (omega arith)
known (c ∷ cs) b ps h = refl

module _ (now height : ℕ) (hash : Text) where
  abbrev tracked : MinedBlockInfo
  tracked = record {
    height = height;
    hash = hash;
    submit_time = now;
    checked = false;
    confirmed = false;
    payment_seen = false;
  }

  settle-count :
      (t : Text) (ps : List P2PPayment)
      → (count_confirmed ((settle t tracked ps).0 ∷ []) ≡ 1) ↔ (bytes_equal t hash ≡ true)
  unfolding settle count_confirmed
  settle-count t ps = elim (Bool-cases (bytes_equal t hash)) [
    | inl e ↦ rw e ((λ x. refl), (λ x. refl))
    | inr e ↦ rw e ((λ x. absurd (omega (arith, x))), (λ x. absurd (not_both x)))
  ]
    where
      not_both : false ≡ true → ⊥
      not_both h = cc

  check_block_due :
      (tip_height : ℕ) (p : P2PClient) (ps : List P2PPayment)
      → height + 2 ≤ tip_height
      → 0 < length (get_block_hash_at_height height p)
      → check_block tip_height p tracked ps ≡ settle (get_block_hash_at_height height p) tracked ps
  unfolding check_block
  check_block_due tip_height p ps h k =
      rw (le→not_ltb tip_height (height + 2) h)
        (known (get_block_hash_at_height height p) tracked ps k)

  -- The first block that a monitor tracks is confirmed, once its height is two below the tip and the
  -- history has a text there, exactly when that text is its hash.
  pub check_for_payments-track :
      (p : P2PClient) (pm : P2PPaymentMonitor) (tip : BlockHeader)
      → pm.submitted_blocks ≡ []
      → p.best_header ≡ some tip
      → height + 2 ≤ tip.height
      → 0 < length (get_block_hash_at_height height p)
      → ((get_stats
            (check_for_payments (some p) (track_submitted_block now height hash pm))).confirmed
          ≡ 1)
        ↔ (bytes_equal (get_block_hash_at_height height p) hash ≡ true)
  unfolding get_stats check_at check_blocks track_submitted_block keep_last
  check_for_payments-track p pm tip empty e h k =
      rw (at_tip p (track_submitted_block now height hash pm) tip e) (
        rw empty (
          rw (check_block_due tip.height p pm.payments h k)
            (settle-count (get_block_hash_at_height height p) pm.payments)))
