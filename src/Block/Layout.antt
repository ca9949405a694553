-- ===== src/Block/Layout.antt =====
-- Where the fields of a header stand among its 80 bytes.
use doge_lucky_mining.Common.{
  ℕ, zero, suc, ◌+◌, ◌≡◌, refl, ap, sym, ◌∙◌, [], ◌∷◌, ◌++◌, arith, length, take, drop,
}
use doge_lucky_mining.Bytes.{Bytes, put_le, length-put_le}
use doge_lucky_mining.Block.{Block, BlockHeader, serialize_block_header, serialize_header}

pub take_exact : (n : ℕ) (xs ys : Bytes) → length xs ≡ n → take n (xs ++ ys) ≡ xs
take_exact zero [] ys h = refl
take_exact zero (x ∷ xs) ys h = absurd (omega arith)
take_exact (suc n) [] ys h = absurd (omega arith)
take_exact (suc n) (x ∷ xs) ys h = ap (λ t. x ∷ t) (take_exact n xs ys (omega arith))

pub drop_past : (n m : ℕ) (xs ys : Bytes) → length xs ≡ n → drop (n + m) (xs ++ ys) ≡ drop m ys
drop_past zero m [] ys h = ap (λ k. drop k ys) (omega arith)
drop_past zero m (x ∷ xs) ys h = absurd (omega arith)
drop_past (suc n) m [] ys h = absurd (omega arith)
drop_past (suc n) m (x ∷ xs) ys h =
    ap (λ k. drop k (x ∷ (xs ++ ys))) (suc_add n m) ∙ drop_past n m xs ys (omega arith)
  where
    suc_add : (n m : ℕ) → suc n + m ≡ suc (n + m)
    suc_add n m = omega arith

pub take-append-drop : (n : ℕ) (xs : Bytes) → take n xs ++ drop n xs ≡ xs
take-append-drop zero xs = refl
take-append-drop (suc n) [] = refl
take-append-drop (suc n) (x ∷ xs) = ap (λ t. x ∷ t) (take-append-drop n xs)

drop-nil : (n : ℕ) → drop {A = ℕ} n [] ≡ []
drop-nil zero = refl
drop-nil (suc n) = refl

pub drop-drop : (n k m : ℕ) (xs : Bytes) → m ≡ n + k → drop k (drop n xs) ≡ drop m xs
drop-drop zero k m xs e = let same : m ≡ k = omega arith in rw same refl
drop-drop (suc n) k m [] e = drop-nil k ∙ sym (drop-nil m)
drop-drop (suc n) k zero (x ∷ xs) e = absurd (omega arith)
drop-drop (suc n) k (suc m) (x ∷ xs) e = drop-drop n k m xs (omega arith)

-- What a header of version `v`, hashes `prev` and `root`, and three more 32-bit fields looks like.
abbrev pub header_bytes : ℕ → Bytes → Bytes → ℕ → ℕ → ℕ → Bytes
header_bytes v prev root t b n =
    put_le 4 v ++ (prev ++ (root ++ (put_le 4 t ++ (put_le 4 b ++ put_le 4 n))))

-- Two headers, or a block and a header, with the same fields have the same bytes.
pub serialize_header-eq :
    (b : Block) (h : BlockHeader)
    → b.version ≡ h.version
    → b.prev_block ≡ h.prev_block
    → b.merkle_root ≡ h.merkle_root
    → b.timestamp ≡ h.timestamp
    → b.bits ≡ h.bits
    → b.nonce ≡ h.nonce
    → serialize_header b ≡ serialize_block_header h
unfolding serialize_header serialize_block_header
serialize_header-eq b h p q r s t u = rw (p, q, r, s, t, u)

module _ (v t b n : ℕ) (prev root : Bytes) (p : length prev ≡ 32) (r : length root ≡ 32) where
  pub version_at : take 4 (header_bytes v prev root t b n) ≡ put_le 4 v
  version_at = take_exact 4 (put_le 4 v) _ (length-put_le 4 v)

  pub prev_at : take 32 (drop 4 (header_bytes v prev root t b n)) ≡ prev
  prev_at = rw (drop_past 4 0 (put_le 4 v) _ (length-put_le 4 v)) (take_exact 32 prev _ p)

  past_prev :
      (m : ℕ)
      → drop (4 + (32 + m)) (header_bytes v prev root t b n)
        ≡ drop m (root ++ (put_le 4 t ++ (put_le 4 b ++ put_le 4 n)))
  past_prev m = drop_past 4 (32 + m) (put_le 4 v) _ (length-put_le 4 v) ∙ drop_past 32 m prev _ p

  pub root_at : take 32 (drop 36 (header_bytes v prev root t b n)) ≡ root
  root_at = rw (past_prev 0) (take_exact 32 root _ r)

  past_root :
      (m : ℕ)
      → drop (4 + (32 + (32 + m))) (header_bytes v prev root t b n)
        ≡ drop m (put_le 4 t ++ (put_le 4 b ++ put_le 4 n))
  past_root m = past_prev (32 + m) ∙ drop_past 32 m root _ r

  pub timestamp_at : take 4 (drop 68 (header_bytes v prev root t b n)) ≡ put_le 4 t
  timestamp_at = rw (past_root 0) (take_exact 4 (put_le 4 t) _ (length-put_le 4 t))

  pub bits_at : take 4 (drop 72 (header_bytes v prev root t b n)) ≡ put_le 4 b
  bits_at =
      rw (past_root 4 ∙ drop_past 4 0 (put_le 4 t) _ (length-put_le 4 t))
        (take_exact 4 (put_le 4 b) _ (length-put_le 4 b))

  pub nonce_at : take 4 (drop 76 (header_bytes v prev root t b n)) ≡ put_le 4 n
  nonce_at =
      rw
        (past_root 8
          ∙ drop_past 4 4 (put_le 4 t) _ (length-put_le 4 t)
          ∙ drop_past 4 0 (put_le 4 b) _ (length-put_le 4 b))
        (unfold put_le in refl)
