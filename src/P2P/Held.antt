-- ===== src/P2P/Held.antt =====
-- What a `headers` message holds, described by its bytes alone: the fields of each header in a row, the
-- merge-mining data that bit 8 of its version announces, and a count. The lemmas say that `read_header`
-- takes exactly such an entry.
use mathlib.Core.Path.{subst}
use doge_lucky_mining.Common.{
  ℕ, zero, suc, ◌+◌, ◌/◌, ◌%◌, ◌≤◌, ◌≡◌, refl, ap, sym, ◌∙◌, inl, inr, List, [], ◌∷◌, ◌++◌, arith,
  Result, ok, err, length, length-take, length-drop, length-append, take, drop, take_all,
  Bool-cases, Result-cases, ◌==◌,
}
use doge_lucky_mining.Bytes.{Bytes, get_le}
use doge_lucky_mining.Wire.{Reader, ReadError, ◌>>=◌, return, read_full, read_var_int}
use doge_lucky_mining.Wire.Laws.{read_full-append}
use doge_lucky_mining.Block.{BlockHeader}
use doge_lucky_mining.Block.Skip.{skip_aux_pow}
use doge_lucky_mining.Block.Layout.{take_exact, take-append-drop, drop-drop}
use doge_lucky_mining.P2P.Headers.{
  slice, has_aux_pow, skip_aux_pow_if, read_header, parse_header, block_hash_chain,
}

-- The bytes `b` are the fields of the header in a row; its hash is their double digest.
pub record IsHeader (sha256 : Bytes → Bytes) (h : BlockHeader) (b : Bytes) : Type 0 where
  pub version_bytes : Bytes
  pub timestamp_bytes : Bytes
  pub bits_bytes : Bytes
  pub nonce_bytes : Bytes
  pub row :
      b
      ≡ version_bytes
        ++ (h.prev_block ++ (h.merkle_root ++ (timestamp_bytes ++ (bits_bytes ++ nonce_bytes))))
  pub version_4 : length version_bytes ≡ 4
  pub prev_32 : length h.prev_block ≡ 32
  pub root_32 : length h.merkle_root ≡ 32
  pub timestamp_4 : length timestamp_bytes ≡ 4
  pub bits_4 : length bits_bytes ≡ 4
  pub nonce_4 : length nonce_bytes ≡ 4
  pub version_eq : h.version ≡ get_le version_bytes
  pub timestamp_eq : h.timestamp ≡ get_le timestamp_bytes
  pub bits_eq : h.bits ≡ get_le bits_bytes
  pub nonce_eq : h.nonce ≡ get_le nonce_bytes
  pub hash_eq : h.hash ≡ sha256 (sha256 b)

-- From the end of a header to its count; the index is bit 8 of the version.
pub data AuxRead : ℕ → Bytes → Bytes → Type 0 where
  plain : {r : Bytes} → AuxRead 0 r r
  merge_mined : {r r' : Bytes} → skip_aux_pow r ≡ ok (tt, r') → AuxRead 1 r r'

-- The entry of the header `h` stands at the front of `r`, and `r'` follows it.
pub record IsEntry (sha256 : Bytes → Bytes) (h : BlockHeader) (r r' : Bytes) : Type 0 where
  pub bytes : Bytes
  pub after : Bytes
  pub at_count : Bytes
  pub count : ℕ
  pub front : r ≡ bytes ++ after
  pub header : IsHeader sha256 h bytes
  pub aux : AuxRead (h.version / 256 % 2) after at_count
  pub counted : read_var_int at_count ≡ ok (count, r')

-- The entries of the headers stand at the front of `r`, and `rest` follows them.
abbrev pub Holds : (Bytes → Bytes) → List BlockHeader → Bytes → Bytes → Type 0
Holds sha256 [] r rest = r ≡ rest
Holds sha256 (h ∷ hs) r rest = (r' : Bytes) × IsEntry sha256 h r r' × Holds sha256 hs r' rest

-- The steps of a reader that succeeds.
bind-inv :
    {A B : Type 0} (m : Reader A) (f : A → Reader B) (r : Bytes) (y : B × Bytes)
    → (m >>= f) r ≡ ok y
    → (a : A) × (r' : Bytes) × (m r ≡ ok (a, r')) × (f a r' ≡ ok y)
bind-inv m f r y e = elim (Result-cases (m r)) [
  | inl ((a, r'), q) ↦ (a, r', q, (rw (q, ◌>>=◌) at e))
  | inr (d, q) ↦ absurd (err_ok (rw (q, ◌>>=◌) at e))
]
  where
    err_ok : {d : ReadError} → err d ≡ ok y → ⊥
    err_ok p = cc

read_full-inv :
    (n : ℕ) (r b r' : Bytes) → read_full n r ≡ ok (b, r') → (r ≡ b ++ r') × (length b ≡ n)
unfolding read_full
read_full-inv zero r b r' e = (cc e, cc e)
read_full-inv (suc n) [] b r' e = absurd (cc e)
read_full-inv (suc n) (x ∷ r) b r' e = elim (Result-cases (read_full n r)) [
  | inr (d, q) ↦ absurd (err_ok (rw (q, read_full) at e))
  | inl ((bs, rest), q) ↦
      let (front, len) = read_full-inv n r bs rest q in
      let f : ◌≡◌ {A = Result ReadError (Bytes × Bytes)} (ok (x ∷ bs, rest)) (ok (b, r')) =
        rw (q, read_full) at e in
      (ap (λ t. x ∷ t) front ∙ cc f, ap length (first f) ∙ ap suc len)
]
  where
    err_ok : {d : ReadError} {y : Bytes × Bytes} → err d ≡ ok y → ⊥
    err_ok p = cc

    first :
        {u v w z : Bytes}
        → ◌≡◌ {A = Result ReadError (Bytes × Bytes)} (ok (u, v)) (ok (w, z))
        → w ≡ u
    first p = cc

cut :
    (from n to : ℕ) (xs : Bytes)
    → to ≡ from + n
    → drop from xs ≡ take n (drop from xs) ++ drop to xs
cut from n to xs e =
    sym (take-append-drop n (drop from xs))
    ∙ ap (λ t. take n (drop from xs) ++ t) (drop-drop from n to xs e)

-- The six fields of 80 bytes.
fields :
    (b : Bytes)
    → length b ≡ 80
    → b
      ≡ slice 0 4 b
        ++ (slice 4 32 b ++ (slice 36 32 b ++ (slice 68 4 b ++ (slice 72 4 b ++ slice 76 4 b))))
fields b l =
    cut 0 4 4 b refl
    ∙ ap (λ t. slice 0 4 b ++ t)
        (cut 4 32 36 b refl
          ∙ ap (λ t. slice 4 32 b ++ t)
              (cut 36 32 68 b refl
                ∙ ap (λ t. slice 36 32 b ++ t)
                    (cut 68 4 72 b refl
                      ∙ ap (λ t. slice 68 4 b ++ t)
                          (cut 72 4 76 b refl
                            ∙ ap (λ t. slice 72 4 b ++ t)
                                (sym (take_all (drop 76 b) 4 (omega (arith, length-drop 76 b))))))))

length-slice :
    (from n : ℕ) (b : Bytes) → length b ≡ 80 → from + n ≤ 80 → length (slice from n b) ≡ n
length-slice from n b l h = omega (arith, length-take n (drop from b), length-drop from b)

module _ (sha256 : Bytes → Bytes) where
  parse_header-IsHeader :
      (height : ℕ) (b : Bytes) → length b ≡ 80 → IsHeader sha256 (parse_header sha256 height b) b
  unfolding parse_header block_hash_chain
  parse_header-IsHeader height b l = record {
    version_bytes = slice 0 4 b;
    timestamp_bytes = slice 68 4 b;
    bits_bytes = slice 72 4 b;
    nonce_bytes = slice 76 4 b;
    row = fields b l;
    version_4 = length-slice 0 4 b l (omega arith);
    prev_32 = length-slice 4 32 b l (omega arith);
    root_32 = length-slice 36 32 b l (omega arith);
    timestamp_4 = length-slice 68 4 b l (omega arith);
    bits_4 = length-slice 72 4 b l (omega arith);
    nonce_4 = length-slice 76 4 b l (omega arith);
    version_eq = refl;
    timestamp_eq = refl;
    bits_eq = refl;
    nonce_eq = refl;
    hash_eq = refl;
  }

  length-IsHeader : (h : BlockHeader) (b : Bytes) → IsHeader sha256 h b → length b ≡ 80
  length-IsHeader h b k = rw k.row (
      omega (
        arith,
        k.version_4,
        k.prev_32,
        k.root_32,
        k.timestamp_4,
        k.bits_4,
        k.nonce_4,
        length-append k.version_bytes (
            h.prev_block
            ++ (h.merkle_root ++ (k.timestamp_bytes ++ (k.bits_bytes ++ k.nonce_bytes)))),
        length-append h.prev_block
            (h.merkle_root ++ (k.timestamp_bytes ++ (k.bits_bytes ++ k.nonce_bytes))),
        length-append h.merkle_root (k.timestamp_bytes ++ (k.bits_bytes ++ k.nonce_bytes)),
        length-append k.timestamp_bytes (k.bits_bytes ++ k.nonce_bytes),
        length-append k.bits_bytes k.nonce_bytes,
      ))

  version-IsHeader :
      (h : BlockHeader) (b : Bytes) → IsHeader sha256 h b → get_le (slice 0 4 b) ≡ h.version
  version-IsHeader h b k =
      ap get_le (ap (take 4) k.row ∙ take_exact 4 k.version_bytes _ k.version_4) ∙ sym k.version_eq

  aux_of :
      (version : ℕ) (r r' : Bytes)
      → skip_aux_pow_if (has_aux_pow version) r ≡ ok (tt, r')
      → AuxRead (version / 256 % 2) r r'
  unfolding skip_aux_pow_if has_aux_pow
  aux_of version r r' e = elim (Bool-cases (version / 256 % 2 == 1)) [
    | inl t ↦
        let one : 1 ≡ version / 256 % 2 = ground arith in
        subst (λ k. AuxRead k r r') one (merge_mined (rw t at e))
    | inr f ↦
        let zero : 0 ≡ version / 256 % 2 = ground arith in
        subst (λ k. AuxRead k r r') zero (subst (λ q. AuxRead 0 r q) (same (rw f at e)) plain)
  ]
    where
      same : ◌≡◌ {A = Result ReadError (Unit {0} × Bytes)} (ok (tt, r)) (ok (tt, r')) → r ≡ r'
      same p = cc

  aux_read :
      (bit : ℕ) (r r' : Bytes) → AuxRead bit r r' → skip_aux_pow_if (bit == 1) r ≡ ok (tt, r')
  unfolding skip_aux_pow_if
  aux_read _ r _ plain = refl
  aux_read _ _ _ (merge_mined e) = e

  count_after : Bytes → Reader Bytes
  count_after b = read_var_int >>= λ n. return b

  after_header : Bytes → Reader Bytes
  after_header b = skip_aux_pow_if (has_aux_pow (get_le (slice 0 4 b))) >>= λ u. count_after b

  -- What `read_header` takes is an entry.
  pub read_header-IsEntry :
      (height : ℕ) (r b r' : Bytes)
      → read_header r ≡ ok (b, r')
      → IsEntry sha256 (parse_header sha256 height b) r r'
  unfolding read_header count_after after_header
  read_header-IsEntry height r b r' e =
      let (c, after, e1, f1) = bind-inv (read_full 80) after_header r (b, r') e in
      let (u, at_count, e2, f2) =
        bind-inv (skip_aux_pow_if (has_aux_pow (get_le (slice 0 4 c)))) (λ u. count_after c) after
          (b, r') f1 in
      let (n, end, e3, f3) = bind-inv read_var_int (λ n. return c) at_count (b, r') f2 in
      let (front, len) = read_full-inv 80 r c after e1 in
      subst (λ d. IsEntry sha256 (parse_header sha256 height d) r r') (same_bytes f3)
        (record {
          bytes = c;
          after = after;
          at_count = at_count;
          count = n;
          front = front;
          header = parse_header-IsHeader height c len;
          aux = unfold parse_header in aux_of (get_le (slice 0 4 c)) after at_count e2;
          counted = e3 ∙ ap (λ t. ok (n, t)) (same_rest f3);
        })
    where
      same_bytes :
          {x y z w : Bytes}
          → ◌≡◌ {A = Result ReadError (Bytes × Bytes)} (ok (x, y)) (ok (z, w))
          → x ≡ z
      same_bytes p = cc

      same_rest :
          {x y z w : Bytes}
          → ◌≡◌ {A = Result ReadError (Bytes × Bytes)} (ok (x, y)) (ok (z, w))
          → y ≡ w
      same_rest p = cc

  -- An entry at the front is taken.
  pub IsEntry-read_header :
      (h : BlockHeader) (r r' : Bytes)
      → (k : IsEntry sha256 h r r') → read_header r ≡ ok (k.bytes, r')
  unfolding read_header has_aux_pow
  IsEntry-read_header h r r' k =
      let flag : skip_aux_pow_if (has_aux_pow (get_le (slice 0 4 k.bytes))) k.after
          ≡ ok (tt, k.at_count) =
        rw (version-IsHeader h k.bytes k.header)
          (aux_read (h.version / 256 % 2) k.after k.at_count k.aux) in
      rw k.front (
        rw (read_full-append 80 k.bytes k.after (length-IsHeader h k.bytes k.header), ◌>>=◌)
          (rw (flag, ◌>>=◌) (rw (k.counted, ◌>>=◌) refl)))
