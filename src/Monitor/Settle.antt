-- ===== src/Monitor/Settle.antt =====
-- What a check of the submitted blocks decides, and that it adds up.
use doge_lucky_mining.Common.{
  ℕ, ◌+◌, ◌≡◌, refl, ap, ◌∙◌, true, false, Option, none, some, List, [], ◌∷◌, arith, length, ltb,
  bytes_equal, Bool-cases, Option-cases, inl, inr,
}
use doge_lucky_mining.Hex.{Text}
use doge_lucky_mining.Block.{BlockHeader}
use doge_lucky_mining.P2P.{P2PClient}
use doge_lucky_mining.Monitor.{
  MinedBlockInfo, P2PPayment, P2PPaymentMonitor, settle, settle_known, check_block, check_blocks,
  check_at, check_for_payments, get_block_hash_at_height, count_confirmed, count_orphaned,
  count_pending, get_stats,
}

stats_sum :
    (bs : List MinedBlockInfo)
    → count_confirmed bs + count_orphaned bs + count_pending bs ≡ length bs
unfolding count_confirmed count_orphaned count_pending
stats_sum [] = refl
stats_sum (b ∷ bs) = ground (arith, stats_sum bs)

-- A block that a round leaves unchecked is one that any round with the same client leaves as it is.
unfoldable pub Fixed : ℕ → P2PClient → MinedBlockInfo → Type 0
Fixed tip p b = (ps : List P2PPayment) → check_block tip p b ps ≡ (b, ps)

pub checked-Fixed :
    (tip : ℕ) (p : P2PClient) (b : MinedBlockInfo) → b.checked ≡ true → Fixed tip p b
unfolding check_block Fixed
checked-Fixed tip p b h ps = simp h refl

pub early-Fixed :
    (tip : ℕ) (p : P2PClient) (b : MinedBlockInfo)
    → b.checked ≡ false
    → ltb tip (b.height + 2) ≡ true
    → Fixed tip p b
unfolding check_block Fixed
early-Fixed tip p b h e ps = simp (h, e) refl

pub ready :
    (tip : ℕ) (p : P2PClient) (b : MinedBlockInfo) (ps : List P2PPayment)
    → b.checked ≡ false
    → ltb tip (b.height + 2) ≡ false
    → check_block tip p b ps ≡ settle_known (get_block_hash_at_height b.height p) b ps
unfolding check_block
ready tip p b ps h e = simp (h, e) refl

no_tip :
    (p : P2PClient) (pm : P2PPaymentMonitor)
    → p.best_header ≡ none
    → check_for_payments (some p) pm ≡ pm
unfolding check_for_payments
no_tip p pm e = simp e refl

pub at_tip :
    (p : P2PClient) (pm : P2PPaymentMonitor) (tip : BlockHeader)
    → p.best_header ≡ some tip
    → check_for_payments (some p) pm ≡ check_at tip.height p pm
unfolding check_for_payments
at_tip p pm tip e = simp e refl

settle-checked :
    (t : Text) (b : MinedBlockInfo) (ps : List P2PPayment) → (settle t b ps).0.checked ≡ true
unfolding settle
settle-checked t b ps = elim (Bool-cases (bytes_equal t b.hash)) [
  | inl e ↦ rw e refl
  | inr e ↦ rw e refl
]

known-Fixed :
    (tip : ℕ) (p : P2PClient) (b : MinedBlockInfo) (ps : List P2PPayment) (t : Text)
    → get_block_hash_at_height b.height p ≡ t
    → b.checked ≡ false
    → ltb tip (b.height + 2) ≡ false
    → Fixed tip p (settle_known t b ps).0
unfolding Fixed settle_known
known-Fixed tip p b ps [] q h e qs = ready tip p b qs h e ∙ rw q refl
known-Fixed tip p b ps (c ∷ cs) q h e qs =
    checked-Fixed tip p (settle (c ∷ cs) b ps).0 (settle-checked (c ∷ cs) b ps) qs

check_block-Fixed :
    (tip : ℕ) (p : P2PClient) (b : MinedBlockInfo) (ps : List P2PPayment)
    → Fixed tip p (check_block tip p b ps).0
unfolding Fixed
check_block-Fixed tip p b ps = elim (Bool-cases b.checked) [
  | inl e ↦ rw (checked-Fixed tip p b e ps) (checked-Fixed tip p b e)
  | inr e ↦ elim (Bool-cases (ltb tip (b.height + 2))) [
    | inl f ↦ rw (early-Fixed tip p b e f ps) (early-Fixed tip p b e f)
    | inr f ↦
        rw (ready tip p b ps e f)
          (known-Fixed tip p b ps (get_block_hash_at_height b.height p) refl e f)
  ]
]

check_blocks-again :
    (tip : ℕ) (p : P2PClient) (bs : List MinedBlockInfo) (ps qs : List P2PPayment)
    → check_blocks tip p (check_blocks tip p bs ps).0 qs ≡ ((check_blocks tip p bs ps).0, qs)
unfolding check_blocks Fixed
check_blocks-again tip p [] ps qs = refl
check_blocks-again tip p (b ∷ bs) ps qs =
    rw (check_block-Fixed tip p b ps qs)
      (rw (check_blocks-again tip p bs (check_block tip p b ps).1 qs) refl)

-- A second check with the same state of the client changes nothing: no block is decided twice and
-- none is paid twice.
pub check_for_payments-again :
    (client : Option P2PClient) (pm : P2PPaymentMonitor)
    → check_for_payments client (check_for_payments client pm) ≡ check_for_payments client pm
unfolding check_at
check_for_payments-again none pm = unfold check_for_payments in refl
check_for_payments-again (some p) pm = elim (Option-cases p.best_header) [
  | inl e ↦ rw (no_tip p pm e) (no_tip p pm e)
  | inr (tip, e) ↦
      rw (at_tip p pm tip e, at_tip p (check_at tip.height p pm) tip e)
        (ap
          (λ (out : List MinedBlockInfo × List P2PPayment). record pm {
            submitted_blocks = out.0;
            payments = out.1;
            last_check_height = tip.height;
          })
          (check_blocks-again tip.height p pm.submitted_blocks pm.payments
            (check_blocks tip.height p pm.submitted_blocks pm.payments).1))
]

-- Every submitted block is counted once: as confirmed, orphaned or pending.
pub get_stats-total :
    (pm : P2PPaymentMonitor)
    → (get_stats pm).confirmed + (get_stats pm).orphaned + (get_stats pm).pending
      ≡ (get_stats pm).total_submitted
unfolding get_stats
get_stats-total pm = stats_sum pm.submitted_blocks
