-- ===== src/MiningLoop/Submit/Orphan.antt =====
-- The payment monitor and the finds of the single-threaded search.
use doge_lucky_mining.Common.{
  ℕ, ◌+◌, ◌≤◌, ◌<◌, ◌≡◌, refl, ap, ◌∙◌, sym, ◌↔◌, Bool, true, Option, some, [], arith, length,
  reverse, reverse-reverse, length-reverse, bytes_equal, bytes_equal_refl, bytes_equal→eq,
}
use doge_lucky_mining.Bytes.{Bytes, IsHash}
use doge_lucky_mining.Hex
use doge_lucky_mining.Hex.{Text}
use doge_lucky_mining.Hex.Laws.{decode-encode, length-encode}
use doge_lucky_mining.HashCompare.{hash_to_display_hex, reverse_bytes_in_place}
use doge_lucky_mining.HashCompare.Reverse.{reverse_bytes_in_place-eq-reverse}
use doge_lucky_mining.Block.{Block, BlockHeader, serialize_header}
use doge_lucky_mining.P2P.{P2PClient}
use doge_lucky_mining.Template.{BlockTemplate}
use doge_lucky_mining.Template.Bits.{All-reverse}
use doge_lucky_mining.Mining.{ScryptMiner, MiningResult, mine_with_strategy, target_bytes_le}
use doge_lucky_mining.Monitor.{
  P2PPaymentMonitor, track_submitted_block, check_for_payments, get_stats, get_block_hash_at_height,
}
use doge_lucky_mining.Monitor.Single.{check_for_payments-track}
use doge_lucky_mining.MiningLoop.Solve.Confirm.{
  mine_with_strategy_hash, reverse_bytes_in_place-IsHash,
}
use doge_lucky_mining.MiningLoop.Submit.{SubmitError, Miner, Surroundings, record_submission, track}

hash_to_display_hex_lem : (h : Bytes) → IsHash h → hash_to_display_hex h ≡ Hex.encode (reverse h)
unfolding hash_to_display_hex
hash_to_display_hex_lem h k = rw k.0 (ap Hex.encode (reverse_bytes_in_place-eq-reverse h))

encode_injective : (a b : Bytes) → IsHash a → IsHash b → Hex.encode a ≡ Hex.encode b → a ≡ b
encode_injective a b p q e =
    some_eq (sym (decode-encode a p.1) ∙ ap Hex.decode e ∙ decode-encode b q.1)
  where
    some_eq : {x y : Bytes} → some x ≡ some y → x ≡ y
    some_eq h = cc

reverse-IsHash : (h : Bytes) → IsHash h → IsHash (reverse h)
reverse-IsHash h k = (length-reverse h ∙ k.0, All-reverse h k.1)

-- The display text of one hash is that of the reverse of another exactly when the first is the
-- reverse of the second.
same_text :
    (d s : Bytes)
    → IsHash d
    → IsHash s
    → (bytes_equal (hash_to_display_hex d) (hash_to_display_hex (reverse_bytes_in_place s)) ≡ true)
      ↔ (s ≡ reverse d)
same_text d s p q =
    let twice : hash_to_display_hex (reverse_bytes_in_place s) ≡ Hex.encode s =
      hash_to_display_hex_lem (reverse_bytes_in_place s) (reverse_bytes_in_place-IsHash s q)
      ∙ ap Hex.encode (ap reverse (reverse_bytes_in_place-eq-reverse s) ∙ reverse-reverse s) in
    rw (hash_to_display_hex_lem d p, twice)
      (
        (λ e. sym (encode_injective (reverse d) s (reverse-IsHash d p) q (bytes_equal→eq _ _ e))),
        (λ e. rw e (bytes_equal_refl (Hex.encode (reverse d)))),
      )

display_length : (h : Bytes) → IsHash h → 0 < length (hash_to_display_hex h)
display_length h k = omega (
  arith,
  ap length (hash_to_display_hex_lem h k),
  length-encode (reverse h),
  length-reverse h,
  k.0,
)

-- A find of the single-threaded search that the loop submits, as the first block that the payment
-- monitor tracks: once header sync has recorded the hash of this very block, the double SHA-256 of its
-- header, at its height, and the tip is two or more above it, the check confirms it exactly when the scrypt hash of the
-- header is the SHA-256 hash in reverse. The text that the monitor keeps is that of the scrypt hash.
pub record_submission-check_for_payments :
    (scrypt sha256 : Bytes → Bytes) (m : ScryptMiner) (start : ℕ) (b : Block) (n : ℕ)
    (target : Bytes) (r : MiningResult) (around : Surroundings) (t : BlockTemplate) (stale : Bool)
    (failure : Option SubmitError) (miner : Miner) (pm : P2PPaymentMonitor) (p : P2PClient)
    (tip : BlockHeader)
    → ((x : Bytes) → IsHash (scrypt x))
    → ((x : Bytes) → IsHash (sha256 x))
    → target_bytes_le n ≡ some target
    → mine_with_strategy scrypt m start b n ≡ some r
    → r.found ≡ true
    → miner.payment_monitor ≡ some pm
    → pm.submitted_blocks ≡ []
    → p.best_header ≡ some tip
    → t.height + 2 ≤ tip.height
    → get_block_hash_at_height t.height p
      ≡ hash_to_display_hex (sha256 (sha256 (serialize_header (record b { nonce = r.nonce }))))
    → (pm' : P2PPaymentMonitor) × ((record_submission around t r stale failure
          miner).payment_monitor
        ≡ some pm')
      × (((get_stats (check_for_payments (some p) pm')).confirmed ≡ 1) ↔ (
          scrypt (serialize_header (record b { nonce = r.nonce }))
          ≡ reverse (sha256 (sha256 (serialize_header (record b { nonce = r.nonce }))))))
unfolding record_submission track
record_submission-check_for_payments scrypt sha256 m start b n target r around t stale failure miner
      pm p tip hs ht te e f has_pm empty has_tip above recorded =
    let header = serialize_header (record b { nonce = r.nonce }) in
    let d = sha256 (sha256 header) in
    let hash = mine_with_strategy_hash scrypt m start b n target r te e f in
    let confirmed =
      check_for_payments-track around.now t.height (hash_to_display_hex r.hash) p pm tip empty
        has_tip above (rw recorded (display_length d (ht (sha256 header)))) in
    let same : (bytes_equal (get_block_hash_at_height t.height p) (hash_to_display_hex r.hash)
          ≡ true)
        ↔ (scrypt header ≡ reverse d) =
      rw (recorded, hash) (same_text d (scrypt header) (ht (sha256 header)) (hs header)) in
    (
      track_submitted_block around.now t.height (hash_to_display_hex r.hash) pm,
      rw has_pm refl,
      ((λ c. same.0 (confirmed.0 c)), (λ c. confirmed.1 (same.1 c))),
    )
