-- ===== src/MiningLoop/Solve/Confirm.antt =====
-- Which finds of the two searches of the CPU miner the loop keeps.
use doge_lucky_mining.Common.{
  ℕ, ◌^◌, ◌<◌, ◌≡◌, ◌∙◌, ap, sym, inl, inr, true, false, some, List, ◌++◌, arith, length, leb,
  length-reverse, refl, Bool, ◌==◌,
}
use mathlib.Core.Path.{subst}
use doge_lucky_mining.Bytes.{Bytes, IsHash, get_le, put_le}
use doge_lucky_mining.Hex.{Text}
use doge_lucky_mining.HashCompare.{hash_meets_target_le, reverse_bytes_in_place}
use doge_lucky_mining.HashCompare.Order.{hash_meets_target_le_lem}
use doge_lucky_mining.HashCompare.Reverse.{reverse_bytes_in_place-eq-reverse}
use doge_lucky_mining.Block.{Block, serialize_header}
use doge_lucky_mining.Compact.{bits_to_target, bits_to_target_hex}
use doge_lucky_mining.Template.Bits.{All-reverse}
use doge_lucky_mining.Template.Target.{decode-bits_to_target_hex, value_of}
use doge_lucky_mining.Mining.{
  ScryptMiner, MiningResult, precompute_header_base, effective_max_hashes, mine_with_strategy,
  hash_of_nonce, target_bytes_le,
}
use doge_lucky_mining.Mining.Target.{target_bytes_le_lem}
use doge_lucky_mining.Mining.Search.{precompute_header_base-append, Outcome, mine_with_strategy_lem}
use doge_lucky_mining.Mining.Parallel.{mine_parallel, returned}
use doge_lucky_mining.Mining.Parallel.Laws.{mine_parallel_found}
use doge_lucky_mining.MiningLoop.Solve.{target_big, confirm}

target_big-bits_to_target_hex :
    (bits : ℕ)
    → 0 < bits_to_target bits
    → bits_to_target bits < 2 ^ 256
    → target_big (bits_to_target_hex bits) ≡ some (bits_to_target bits)
unfolding target_big
target_big-bits_to_target_hex bits pos small =
    let nonzero : (bits_to_target bits == 0) ≡ false = ground arith in
    rw (decode-bits_to_target_hex bits small, target_big)
      (rw (value_of (bits_to_target bits)) (rw nonzero refl))

pub reverse_bytes_in_place-IsHash : (h : Bytes) → IsHash h → IsHash (reverse_bytes_in_place h)
reverse_bytes_in_place-IsHash h k =
    rw (reverse_bytes_in_place-eq-reverse h) (length-reverse h ∙ k.0, All-reverse h k.1)

confirm_found :
    (target : Text) (n : ℕ) (t : Bytes) (r : MiningResult)
    → target_big target ≡ some n
    → target_bytes_le n ≡ some t
    → r.found ≡ true
    → length r.hash ≡ 32
    → confirm target r ≡ some (hash_meets_target_le r.hash t)
unfolding confirm
confirm_found target n t r e te f l = simp (e, te, f, l)

found_none : {b : Bool} → b ≡ true → b ≡ false → ⊥
found_none h k = cc

some_eq : {r r' : MiningResult} → some r ≡ some r' → r ≡ r'
some_eq h = cc

-- The hash that the single-threaded search reports is the scrypt hash of the header, in reverse.
pub mine_with_strategy_hash :
    (scrypt : Bytes → Bytes) (m : ScryptMiner) (start : ℕ) (b : Block) (n : ℕ) (t : Bytes)
    (r : MiningResult)
    → target_bytes_le n ≡ some t
    → mine_with_strategy scrypt m start b n ≡ some r
    → r.found ≡ true
    → r.hash ≡ reverse_bytes_in_place (scrypt (serialize_header (record b { nonce = r.nonce })))
mine_with_strategy_hash scrypt m start b n t r te e f =
    let (r', e', out) = mine_with_strategy_lem scrypt m start b n t te in
    let same : r' ≡ r = some_eq (sym e' ∙ e) in
    let out' =
      subst (λ x. Outcome scrypt t (precompute_header_base b) start 0 (effective_max_hashes m) x)
        same out in
    elim out' [
      | inr (none_of, not, count) ↦ absurd (found_none f not)
      | inl (k, l, before, hit, found, nonce, hash, count) ↦
          hash
          ∙ ap (λ x. reverse_bytes_in_place (hash_of_nonce scrypt (precompute_header_base b) x))
              (sym nonce)
          ∙ ap (λ x. reverse_bytes_in_place (scrypt x)) (precompute_header_base-append b r.nonce)
    ]

-- The loop reads the hash of a find of the single-threaded search in the other byte order: for a
-- positive target of at most 256 bits, given as the text of a template, the find is kept
-- exactly when the scrypt hash of the header with its bytes reversed, as a little-endian number, is
-- at most the target.
pub confirm-mine_with_strategy :
    (scrypt : Bytes → Bytes) (m : ScryptMiner) (start : ℕ) (b : Block) (bits : ℕ) (r : MiningResult)
    → ((x : Bytes) → IsHash (scrypt x))
    → 0 < bits_to_target bits
    → bits_to_target bits < 2 ^ 256
    → mine_with_strategy scrypt m start b (bits_to_target bits) ≡ some r
    → r.found ≡ true
    → confirm (bits_to_target_hex bits) r
      ≡ some (
          leb
            (get_le
              (reverse_bytes_in_place (scrypt (serialize_header (record b { nonce = r.nonce })))))
            (bits_to_target bits))
confirm-mine_with_strategy scrypt m start b bits r hs pos small e f =
    let (t, te, h, v) = target_bytes_le_lem (bits_to_target bits) small in
    let block = record b { nonce = r.nonce } in
    let hash = mine_with_strategy_hash scrypt m start b (bits_to_target bits) t r te e f in
    let is_hash =
      reverse_bytes_in_place-IsHash (scrypt (serialize_header block))
        (hs (serialize_header block)) in
    let len : length r.hash ≡ 32 = ap length hash ∙ is_hash.0 in
    confirm_found (bits_to_target_hex bits) (bits_to_target bits) t r
      (target_big-bits_to_target_hex bits pos small) te f len
    ∙ ap (λ x. some (hash_meets_target_le x t)) hash
    ∙ ap some (
        hash_meets_target_le_lem (reverse_bytes_in_place (scrypt (serialize_header block))) t
          is_hash h)
    ∙ ap (λ x. some (leb (get_le (reverse_bytes_in_place (scrypt (serialize_header block)))) x)) v

-- A find of the search by several threads is kept, whatever the order of their steps.
pub confirm-mine_parallel :
    (scrypt : Bytes → Bytes) (m : ScryptMiner) (base : ℕ) (schedule : List ℕ) (b : Block) (bits : ℕ)
    (r : MiningResult)
    → ((x : Bytes) → IsHash (scrypt x))
    → 0 < bits_to_target bits
    → bits_to_target bits < 2 ^ 256
    → mine_parallel scrypt m base schedule b (bits_to_target bits) ≡ returned r
    → r.found ≡ true
    → confirm (bits_to_target_hex bits) r ≡ some true
confirm-mine_parallel scrypt m base schedule b bits r hs pos small e f =
    let (t, te, h, v) = target_bytes_le_lem (bits_to_target bits) small in
    let (nonzero, meets, hash, accepted) =
      mine_parallel_found scrypt m base schedule b (bits_to_target bits) t r te e f in
    let x = precompute_header_base b ++ put_le 4 r.nonce in
    let len : length r.hash ≡ 32 =
      ap length hash ∙ (reverse_bytes_in_place-IsHash (scrypt x) (hs x)).0 in
    confirm_found (bits_to_target_hex bits) (bits_to_target bits) t r
      (target_big-bits_to_target_hex bits pos small) te f len
    ∙ ap some accepted
