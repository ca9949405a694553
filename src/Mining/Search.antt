-- ===== src/Mining/Search.antt =====
-- The search returns the first nonce that meets the target, or tried them all.
use doge_lucky_mining.Common.{
  ℕ, zero, suc, ◌+◌, ◌-◌, ◌<◌, ◌≡◌, refl, ap, ◌∙◌, sym, ◌⊎◌, inl, inr, Bool, true, false, some,
  ◌++◌, arith, length, length-append, append_assoc, Bool-cases,
}
use doge_lucky_mining.Bytes.{Bytes, put_le, length-put_le}
use doge_lucky_mining.HashCompare.{hash_meets_target_le, reverse_bytes_in_place}
use doge_lucky_mining.Block.{Block, serialize_header}
use doge_lucky_mining.Block.Layout.{take_exact}
use doge_lucky_mining.Mining.{
  ScryptMiner, MiningResult, effective_max_hashes, target_bytes_le, precompute_header_base,
  nonce_at, hash_of_nonce, search, mine_with_strategy,
}

-- The header of a block with another nonce, from the precomputed part.
pub precompute_header_base-append :
    (block : Block) (nonce : ℕ)
    → precompute_header_base block ++ put_le 4 nonce
      ≡ serialize_header (record block { nonce = nonce })
unfolding precompute_header_base serialize_header
precompute_header_base-append block nonce =
    let front =
      put_le 4 block.version
      ++ (block.prev_block
          ++ (block.merkle_root ++ (put_le 4 block.timestamp ++ put_le 4 block.bits))) in
    rw
      (regroup (put_le 4 block.version) block.prev_block block.merkle_root
        (put_le 4 block.timestamp) (put_le 4 block.bits) (put_le 4 0))
      (rw
        (take_exact (length (front ++ put_le 4 0) - 4) front (put_le 4 0)
          (omega (arith, length-append front (put_le 4 0), length-put_le 4 0)))
        (sym (
          regroup (put_le 4 block.version) block.prev_block block.merkle_root
            (put_le 4 block.timestamp) (put_le 4 block.bits) (put_le 4 nonce))))
  where
    regroup :
        (a b c d e f : Bytes)
        → a ++ (b ++ (c ++ (d ++ (e ++ f)))) ≡ (a ++ (b ++ (c ++ (d ++ e)))) ++ f
    regroup a b c d e f = simp append_assoc

module _ (scrypt : Bytes → Bytes) (target : Bytes) where
  -- Whether the hash of a header meets the target.
  abbrev pub meets : Bytes → ℕ → Bool
  meets base nonce = hash_meets_target_le (hash_of_nonce scrypt base nonce) target

  -- Attempts `i`, …, `i + k - 1` fail and, if it was found, attempt `i + k` does not.
  abbrev pub Outcome : Bytes → ℕ → ℕ → ℕ → MiningResult → Type 0
  Outcome base start i left r =
      ((k : ℕ) × (k < left)
        × ((j : ℕ) → j < k → meets base (nonce_at start (i + j)) ≡ false)
        × (meets base (nonce_at start (i + k)) ≡ true)
        × (r.found ≡ true)
        × (r.nonce ≡ nonce_at start (i + k))
        × (r.hash ≡ reverse_bytes_in_place (hash_of_nonce scrypt base (nonce_at start (i + k))))
        × (r.hash_count ≡ i + k + 1))
      ⊎ (((j : ℕ) → j < left → meets base (nonce_at start (i + j)) ≡ false)
          × (r.found ≡ false)
          × (r.hash_count ≡ i + left))

  before_suc :
      (base : Bytes) (start i k : ℕ)
      → meets base (nonce_at start i) ≡ false
      → ((j : ℕ) → j < k → meets base (nonce_at start (i + 1 + j)) ≡ false)
      → (j : ℕ) → j < suc k
      → meets base (nonce_at start (i + j)) ≡ false
  before_suc base start i k e h zero l = ap (λ n. meets base (nonce_at start n)) (omega arith) ∙ e
  before_suc base start i k e h (suc j) l =
      ap (λ n. meets base (nonce_at start n)) (omega arith) ∙ h j (omega arith)

  shift :
      (base : Bytes) (start i left : ℕ) (r : MiningResult)
      → meets base (nonce_at start i) ≡ false
      → Outcome base start (i + 1) left r
      → Outcome base start i (suc left) r
  shift base start i left r e (inl (k, l, before, hit, found, nonce, hash, count)) =
      let move : i + 1 + k ≡ i + suc k = omega arith in
      inl (
        suc k,
        omega arith,
        before_suc base start i k e before,
        ap (λ n. meets base (nonce_at start n)) (sym move) ∙ hit,
        found,
        nonce ∙ ap (λ n. nonce_at start n) move,
        hash ∙ ap (λ n. reverse_bytes_in_place (hash_of_nonce scrypt base (nonce_at start n))) move,
        omega arith,
      )
  shift base start i left r e (inr (none_of, found, count)) =
      inr (before_suc base start i left e none_of, found, omega arith)

  search_hit :
      (base : Bytes) (start left i : ℕ)
      → meets base (nonce_at start i) ≡ true
      → search scrypt base target start (suc left) i ≡ record {
        nonce = nonce_at start i;
        hash = reverse_bytes_in_place (hash_of_nonce scrypt base (nonce_at start i));
        found = true;
        hash_count = i + 1;
      }
  unfolding search
  search_hit base start left i e = rw (e, search) refl

  search_miss :
      (base : Bytes) (start left i : ℕ)
      → meets base (nonce_at start i) ≡ false
      → search scrypt base target start (suc left) i ≡ search scrypt base target start left (i + 1)
  unfolding search
  search_miss base start left i e = rw (e, search) refl

  pub search-Outcome :
      (base : Bytes) (start left i : ℕ)
      → Outcome base start i left (search scrypt base target start left i)
  search-Outcome base start zero i =
      unfold search in inr ((λ j l. absurd (omega arith)), refl, omega arith)
  search-Outcome base start (suc left) i = elim (Bool-cases (meets base (nonce_at start i))) [
    | inr e ↦
        rw (search_miss base start left i e)
          (shift base start i left _ e (search-Outcome base start left (i + 1)))
    | inl e ↦
        let stay : i ≡ i + 0 = omega arith in
        rw (search_hit base start left i e) (
          inl (
            0,
            omega arith,
            (λ j l. absurd (omega arith)),
            ap (λ n. meets base (nonce_at start n)) (sym stay) ∙ e,
            refl,
            ap (λ n. nonce_at start n) stay,
            ap (λ n. reverse_bytes_in_place (hash_of_nonce scrypt base (nonce_at start n))) stay,
            omega arith,
          ))
  ]

-- For a target of 32 bytes the search tries the nonces from the start, in order and around the
-- end of the 32 bits: it returns the first whose header has a scrypt hash that meets the
-- target, with that hash in display order, or it reports that all the attempts that it may make fail.
pub mine_with_strategy_lem :
    (scrypt : Bytes → Bytes) (m : ScryptMiner) (start : ℕ) (block : Block) (target : ℕ) (t : Bytes)
    → target_bytes_le target ≡ some t
    → (r : MiningResult) × (mine_with_strategy scrypt m start block target ≡ some r)
      × Outcome scrypt t (precompute_header_base block) start 0 (effective_max_hashes m) r
unfolding mine_with_strategy
mine_with_strategy_lem scrypt m start block target t e =
    let base = precompute_header_base block in
    let r = search scrypt base t start (effective_max_hashes m) 0 in
    (
      r,
      rw (e, mine_with_strategy) refl,
      search-Outcome scrypt t base start (effective_max_hashes m) 0,
    )
