-- ===== src/Mining/Verify.antt =====
-- A mined block passes the check that `submitBlock` makes, and its hash is at most the target.
use doge_lucky_mining.Common.{
  ℕ, ◌+◌, ◌^◌, ◌<◌, ◌≡◌, ap, ◌∙◌, sym, inl, inr, Bool, true, false, none, some, ◌++◌, arith, length,
  leb, ◌==◌, length-append,
}
use mathlib.Core.Path.{subst}
use doge_lucky_mining.Bytes.{Bytes, IsHash, get_le, put_le, length-put_le}
use doge_lucky_mining.HashCompare.{
  hash_meets_target_le, reverse_bytes_in_place, hash_to_display_hex,
}
use doge_lucky_mining.HashCompare.Order.{hash_meets_target_le_lem}
use doge_lucky_mining.Block.{Block, serialize_header}
use doge_lucky_mining.Compact.{bits_to_target}
use doge_lucky_mining.Mining.{
  ScryptMiner, MiningResult, PowCheck, display, precompute_header_base, nonce_at,
  effective_max_hashes, mine_with_strategy, verify_block_pow,
}
use doge_lucky_mining.Mining.Target.{target_bytes_le_lem}
use doge_lucky_mining.Mining.Search.{precompute_header_base-append, Outcome, mine_with_strategy_lem}

pub length-serialize_header :
    (b : Block)
    → length b.prev_block ≡ 32
    → length b.merkle_root ≡ 32
    → length (serialize_header b) ≡ 80
unfolding serialize_header
length-serialize_header b p r =
    let bits = put_le 4 b.bits ++ put_le 4 b.nonce in
    let time = put_le 4 b.timestamp ++ bits in
    let root = b.merkle_root ++ time in
    let prev = b.prev_block ++ root in
    omega (
      arith,
      length-append (put_le 4 b.version) prev,
      length-append b.prev_block root,
      length-append b.merkle_root time,
      length-append (put_le 4 b.timestamp) bits,
      length-append (put_le 4 b.bits) (put_le 4 b.nonce),
      length-put_le 4 b.version,
      length-put_le 4 b.timestamp,
      length-put_le 4 b.bits,
      length-put_le 4 b.nonce,
    )

-- `verifyBlockPoW` accepts a block with 32-byte hashes and a positive target of at most 256 bits exactly
-- when the scrypt hash of its header, as a little-endian number, is at most the target of its bits.
pub verify_block_pow_lem :
    (scrypt : Bytes → Bytes) (b : Block)
    → ((x : Bytes) → IsHash (scrypt x))
    → length b.prev_block ≡ 32
    → length b.merkle_root ≡ 32
    → 0 < bits_to_target b.bits
    → bits_to_target b.bits < 2 ^ 256
    → verify_block_pow scrypt b
      ≡ some (
        record {
          pow_hash_display =
              hash_to_display_hex (reverse_bytes_in_place (scrypt (serialize_header b)));
          meets_target = leb (get_le (scrypt (serialize_header b))) (bits_to_target b.bits);
        },
        none,
      )
unfolding verify_block_pow display
verify_block_pow_lem scrypt b hs p r pos small =
    let (t, e, h, v) = target_bytes_le_lem (bits_to_target b.bits) small in
    let nonzero : (bits_to_target b.bits == 0) ≡ false = ground arith in
    let long : (length (serialize_header b) == 80) ≡ true =
      ground (arith, length-serialize_header b p r) in
    let meets : hash_meets_target_le (scrypt (serialize_header b)) t
        ≡ leb (get_le (scrypt (serialize_header b))) (bits_to_target b.bits) =
      hash_meets_target_le_lem (scrypt (serialize_header b)) t (hs (serialize_header b)) h
      ∙ ap (λ n. leb (get_le (scrypt (serialize_header b))) n) v in
    rw (long, nonzero, e)
      (ap
        (λ m. some (
          record {
            pow_hash_display =
                hash_to_display_hex (reverse_bytes_in_place (scrypt (serialize_header b)));
            meets_target = m;
          },
          none,
        ))
        meets)

found_none : {b : Bool} → b ≡ true → b ≡ false → ⊥
found_none h k = cc

some_eq : {r r' : MiningResult} → some r ≡ some r' → r ≡ r'
some_eq h = cc

-- A nonce that the search finds for the target of the block's own bits makes a block that
-- `verifyBlockPoW` accepts, for a block with 32-byte hashes and a positive target of at most 256 bits.
pub mine_with_strategy-verify :
    (scrypt : Bytes → Bytes) (m : ScryptMiner) (start : ℕ) (b : Block) (r : MiningResult)
    → ((x : Bytes) → IsHash (scrypt x))
    → length b.prev_block ≡ 32
    → length b.merkle_root ≡ 32
    → 0 < bits_to_target b.bits
    → bits_to_target b.bits < 2 ^ 256
    → mine_with_strategy scrypt m start b (bits_to_target b.bits) ≡ some r
    → r.found ≡ true
    → (c : PowCheck) × (verify_block_pow scrypt (record b { nonce = r.nonce }) ≡ some (c, none))
      × (c.meets_target ≡ true)
mine_with_strategy-verify scrypt m start b r hs p q pos small e f =
    let (t, te, h, v) = target_bytes_le_lem (bits_to_target b.bits) small in
    let (r', e', out) = mine_with_strategy_lem scrypt m start b (bits_to_target b.bits) t te in
    let same : r' ≡ r = some_eq (sym e' ∙ e) in
    let out' =
      subst (λ x. Outcome scrypt t (precompute_header_base b) start 0 (effective_max_hashes m) x)
        same out in
    elim out' [
      | inr (none_of, not, count) ↦ absurd (found_none f not)
      | inl (k, l, before, hit, found, nonce, hash, count) ↦
          let block = record b { nonce = r.nonce } in
          let header : precompute_header_base b ++ put_le 4 (nonce_at start (0 + k))
              ≡ serialize_header block =
            ap (λ n. precompute_header_base b ++ put_le 4 n) (sym nonce)
            ∙ precompute_header_base-append b r.nonce in
          let meets : leb (get_le (scrypt (serialize_header block))) (bits_to_target b.bits)
              ≡ true =
            ap (λ n. leb (get_le (scrypt (serialize_header block))) n) (sym v)
            ∙ sym (
                hash_meets_target_le_lem (scrypt (serialize_header block)) t
                  (hs (serialize_header block)) h)
            ∙ ap (λ x. hash_meets_target_le (scrypt x) t) (sym header)
            ∙ hit in
          (_, verify_block_pow_lem scrypt block hs p q pos small, meets)
    ]
