-- ===== src/Monitor/Track.antt =====
-- The list of tracked blocks, and the history in which their hashes are looked up.
use doge_lucky_mining.Common.{
  ℕ, ◌+◌, ◌-◌, ◌≤◌, ◌≡◌, refl, ◌∙◌, true, false, List, [], ◌∷◌, arith, length, length-drop, ltb,
  ◌==◌, Bool-cases, inl, inr,
}
use doge_lucky_mining.Hex.{Text}
use doge_lucky_mining.HashCompare.{hash_to_display_hex}
use doge_lucky_mining.Block.{BlockHeader}
use doge_lucky_mining.P2P.Headers.{put_history, drop_below, record_history}
use doge_lucky_mining.Monitor.{
  MinedBlockInfo, P2PPaymentMonitor, keep_last, track_submitted_block, history_get,
}

length-keep_last : (bs : List MinedBlockInfo) → length (keep_last bs) ≤ 100
unfolding keep_last
length-keep_last bs = ground (arith, length-drop (length bs - 100) bs)

-- The monitor tracks at most 100 blocks.
pub track_submitted_block-length :
    (now height : ℕ) (hash : Text) (pm : P2PPaymentMonitor)
    → length (track_submitted_block now height hash pm).submitted_blocks ≤ 100
unfolding track_submitted_block
track_submitted_block-length now height hash pm = length-keep_last _

history_get-put : (h : ℕ) (t : Text) (m : List (ℕ × Text)) → history_get h (put_history h t m) ≡ t
unfolding history_get put_history
history_get-put h t [] = let e : (h == h) ≡ true = ground arith in rw e refl
history_get-put h t ((k, u) ∷ m) = elim (Bool-cases (k == h)) [
  | inl e ↦ rw e (let f : (h == h) ≡ true = ground arith in rw f refl)
  | inr e ↦ rw e (rw e (history_get-put h t m))
]

history_get-drop_below :
    (h : ℕ) (m : List (ℕ × Text)) → history_get h (drop_below h m) ≡ history_get h m
unfolding history_get drop_below
history_get-drop_below h [] = refl
history_get-drop_below h ((k, t) ∷ m) = elim (Bool-cases (ltb (k + 500) h)) [
  | inl e ↦ let f : (k == h) ≡ false = ground arith in rw (e, f) (history_get-drop_below h m)
  | inr e ↦
      rw e (elim (Bool-cases (k == h)) [
        | inl f ↦ rw f refl
        | inr f ↦ rw f (history_get-drop_below h m)
      ])
]

-- After header sync has recorded a header, the history has its display hash at its height.
pub history_get-record_history :
    (h : BlockHeader) (m : List (ℕ × Text))
    → history_get h.height (record_history h m) ≡ hash_to_display_hex h.hash
unfolding record_history
history_get-record_history h m =
    let m' = put_history h.height (hash_to_display_hex h.hash) m in
    elim (Bool-cases (ltb 500 (length m'))) [
      | inl e ↦ rw e (
          history_get-drop_below h.height m'
          ∙ history_get-put h.height (hash_to_display_hex h.hash) m)
      | inr e ↦ rw e (history_get-put h.height (hash_to_display_hex h.hash) m)
    ]
