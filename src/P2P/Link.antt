-- ===== src/P2P/Link.antt =====
-- A `headers` message that a peer makes of linked headers, with or without merge-mining data, is
-- accepted.
use doge_lucky_mining.Common.{
  ℕ, zero, suc, ◌+◌, ◌^◌, ◌<◌, ◌≡◌, refl, ap, sym, ◌∙◌, Bool, true, false, Option, none, some, List,
  [], ◌∷◌, ◌++◌, arith, ok, length, append_assoc, bytes_equal, bytes_equal_refl,
}
use mathlib.Core.Path.{subst}
use doge_lucky_mining.Bytes.{Bytes, get_le, get_le-put_le}
use doge_lucky_mining.Wire.{◌>>=◌, read_var_int, write_var_int}
use doge_lucky_mining.Wire.Laws.{read_full-append, read_var_int-write_var_int}
use doge_lucky_mining.Block.{BlockHeader, AuxPow, serialize_block_header, serialize_aux_pow}
use doge_lucky_mining.Block.Layout.{version_at, prev_at, root_at, timestamp_at, bits_at, nonce_at}
use doge_lucky_mining.Block.SkipLaws.{
  AuxPowFits, skip_aux_pow-serialize_aux_pow, length-serialize_block_header,
}
use doge_lucky_mining.P2P.{P2PClient}
use doge_lucky_mining.P2P.Headers.{
  Scan, has_aux_pow, slice, skip_aux_pow_if, read_header, block_hash_chain, parse_header,
  start_scan, advance, scan, apply_scan, process_headers,
}
use doge_lucky_mining.P2P.Advance.{Linked, Numbered, advance_all}
use doge_lucky_mining.P2P.Accepted.{accepted, commit-advance_all}

-- A header with the merge-mining data that its version announces.
abbrev pub Entry : Type 0
Entry = BlockHeader × Option AuxPow

abbrev pub aux_bytes : Option AuxPow → Bytes
aux_bytes none = []
aux_bytes (some ap) = serialize_aux_pow ap

abbrev pub AuxFits : Bool → Option AuxPow → Type 0
AuxFits flag none = flag ≡ false
AuxFits flag (some ap) = (flag ≡ true) × AuxPowFits ap

abbrev pub entry_bytes : Entry → Bytes
entry_bytes (h, aux) = serialize_block_header h ++ (aux_bytes aux ++ write_var_int 0)

abbrev pub entries_bytes : List Entry → Bytes
entries_bytes [] = []
entries_bytes (e ∷ es) = entry_bytes e ++ entries_bytes es

abbrev pub message : List Entry → Bytes
message es = write_var_int (length es) ++ entries_bytes es

abbrev pub headers : List Entry → List BlockHeader
headers [] = []
headers ((h, aux) ∷ es) = h ∷ headers es

pub record HeaderFits (h : BlockHeader) : Type 0 where
  pub prev_32 : length h.prev_block ≡ 32
  pub root_32 : length h.merkle_root ≡ 32
  pub version_u32 : h.version < 2 ^ 32
  pub timestamp_u32 : h.timestamp < 2 ^ 32
  pub bits_u32 : h.bits < 2 ^ 32
  pub nonce_u32 : h.nonce < 2 ^ 32

skip_aux_pow_if-aux_bytes :
    (flag : Bool) (aux : Option AuxPow) (rest : Bytes)
    → AuxFits flag aux
    → skip_aux_pow_if flag (aux_bytes aux ++ rest) ≡ ok (tt, rest)
unfolding skip_aux_pow_if
skip_aux_pow_if-aux_bytes flag none rest f = rw f
skip_aux_pow_if-aux_bytes flag (some ap) rest (t, f) =
    rw t (skip_aux_pow-serialize_aux_pow ap rest f)

version_of :
    (h : BlockHeader) → HeaderFits h → get_le (slice 0 4 (serialize_block_header h)) ≡ h.version
unfolding serialize_block_header
version_of h f =
    rw
      (version_at h.version h.timestamp h.bits h.nonce h.prev_block h.merkle_root f.prev_32
        f.root_32)
      (get_le-put_le 4 h.version (omega (arith, f.version_u32)))

-- One entry is read as the 80 bytes of its header.
read_header-entry :
    (h : BlockHeader) (aux : Option AuxPow) (rest : Bytes)
    → HeaderFits h
    → AuxFits (has_aux_pow h.version) aux
    → read_header (entry_bytes (h, aux) ++ rest) ≡ ok (serialize_block_header h, rest)
unfolding read_header
read_header-entry h aux rest f a =
    rw (regroup (serialize_block_header h) (aux_bytes aux) (write_var_int 0) rest) (
      rw
        (
          read_full-append 80 (serialize_block_header h)
              (aux_bytes aux ++ (write_var_int 0 ++ rest))
              (length-serialize_block_header h f.prev_32 f.root_32),
          ◌>>=◌,
        )
        (rw (version_of h f) (
          rw
            (
              skip_aux_pow_if-aux_bytes (has_aux_pow h.version) aux (write_var_int 0 ++ rest) a,
              ◌>>=◌,
            )
            (rw (read_var_int-write_var_int 0 rest (omega arith), ◌>>=◌) refl))))
  where
    regroup : (a b c d : Bytes) → (a ++ (b ++ c)) ++ d ≡ a ++ (b ++ (c ++ d))
    regroup a b c d = simp append_assoc

module _ (sha256 : Bytes → Bytes) where
  -- The bytes of a header parse to the header, at its height and with its hash.
  pub parse_header-serialize_block_header :
      (h : BlockHeader)
      → HeaderFits h
      → h.hash ≡ block_hash_chain sha256 (serialize_block_header h)
      → parse_header sha256 h.height (serialize_block_header h) ≡ h
  unfolding parse_header serialize_block_header
  parse_header-serialize_block_header h f e = λ i. record {
    version = version_of h f i;
    prev_block = prev_at v t b n prev root f.prev_32 f.root_32 i;
    merkle_root = root_at v t b n prev root f.prev_32 f.root_32 i;
    timestamp =
        (ap get_le (timestamp_at v t b n prev root f.prev_32 f.root_32)
            ∙ get_le-put_le 4 t (omega (arith, f.timestamp_u32)))
          i;
    bits =
        (ap get_le (bits_at v t b n prev root f.prev_32 f.root_32)
            ∙ get_le-put_le 4 b (omega (arith, f.bits_u32)))
          i;
    nonce =
        (ap get_le (nonce_at v t b n prev root f.prev_32 f.root_32)
            ∙ get_le-put_le 4 n (omega (arith, f.nonce_u32)))
          i;
    height = h.height;
    hash = sym e i;
  }
    where
      open h use {
        version as v, timestamp as t, bits as b, nonce as n, prev_block as prev,
        merkle_root as root,
      }

  abbrev pub EntriesFit : List Entry → Type 0
  EntriesFit [] = Unit
  EntriesFit ((h, aux) ∷ es) =
      HeaderFits h
      × (h.hash ≡ block_hash_chain sha256 (serialize_block_header h))
      × AuxFits (has_aux_pow h.version) aux
      × EntriesFit es

  scan_step :
      (n : ℕ) (s : Scan) (h : BlockHeader) (r b r' : Bytes)
      → read_header r ≡ ok (b, r')
      → parse_header sha256 (s.height + 1) b ≡ h
      → h.prev_block ≡ s.expected_prev
      → scan sha256 (suc n) s r ≡ scan sha256 n (advance h s) r'
  unfolding scan
  scan_step n s h r b r' q e l = rw (q, scan) (rw test (ap (λ k. scan sha256 n (advance k s) r') e))
    where
      test : bytes_equal (parse_header sha256 (s.height + 1) b).prev_block s.expected_prev ≡ true
      test =
          ap (λ k. bytes_equal k s.expected_prev) (ap (λ (k : BlockHeader). k.prev_block) e ∙ l)
          ∙ bytes_equal_refl s.expected_prev

  scan-entries :
      (es : List Entry) (s : Scan) (rest : Bytes)
      → EntriesFit es
      → Linked s.expected_prev (headers es)
      → Numbered s.height (headers es)
      → scan sha256 (length es) s (entries_bytes es ++ rest) ≡ (advance_all (headers es) s, none)
  unfolding advance_all advance scan
  scan-entries [] s rest f l n = refl
  scan-entries ((h, aux) ∷ es) s rest (f, e, a, fs) l n =
      rw (append_assoc (entry_bytes (h, aux)) (entries_bytes es) rest) (
        scan_step (length es) s h _ (serialize_block_header h) (entries_bytes es ++ rest)
          (read_header-entry h aux (entries_bytes es ++ rest) f a)
          (ap (λ k. parse_header sha256 k (serialize_block_header h)) (sym n.0)
            ∙ parse_header-serialize_block_header h f e)
          l.0
        ∙ scan-entries es (advance h s) rest fs l.1
            (subst (λ k. Numbered k (headers es)) (sym n.0) n.1))

length-headers : (es : List Entry) → length (headers es) ≡ length es
length-headers [] = refl
length-headers ((h, aux) ∷ es) = ap suc (length-headers es)

after_count :
    (sha256 : Bytes → Bytes) (now n : ℕ) (p : P2PClient) (payload r : Bytes) (hs : List BlockHeader)
    → length hs ≡ n
    → read_var_int payload ≡ ok (n, r)
    → scan sha256 n (start_scan p) r ≡ (advance_all hs (start_scan p), none)
    → Numbered (start_scan p).height hs
    → process_headers sha256 now payload p ≡ (accepted now hs p, ok n)
unfolding process_headers
after_count sha256 now zero p payload r [] len q s k =
    rw (q, process_headers) (unfold accepted in refl)
after_count sha256 now zero p payload r (h ∷ hs) len q s k = absurd (omega arith)
after_count sha256 now (suc n) p payload r hs len q s k =
    rw (q, process_headers)
      (rw s (unfold apply_scan in ap (λ t. (t, ok (suc n))) (commit-advance_all now hs p k)))

-- A `headers` message made of headers that link to the block that the client expects, with consecutive
-- heights and 32-byte hashes, each followed by its merge-mining data if its version announces such
-- data, is accepted whatever follows it: `processHeaders` reports their number and the client moves
-- to the last of them.
pub process_headers_complete :
    (sha256 : Bytes → Bytes) (now : ℕ) (es : List Entry) (rest : Bytes) (p : P2PClient)
    → length es < 2 ^ 64
    → EntriesFit sha256 es
    → Linked (start_scan p).expected_prev (headers es)
    → Numbered (start_scan p).height (headers es)
    → process_headers sha256 now (message es ++ rest) p
      ≡ (accepted now (headers es) p, ok (length es))
process_headers_complete sha256 now es rest p c f l n =
    rw (append_assoc (write_var_int (length es)) (entries_bytes es) rest) (
      after_count sha256 now (length es) p _ _ (headers es) (length-headers es)
        (read_var_int-write_var_int (length es) (entries_bytes es ++ rest) c)
        (scan-entries sha256 es (start_scan p) rest f l n) n)
