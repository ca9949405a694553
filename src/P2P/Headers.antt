-- ===== src/P2P/Headers.antt =====
-- `processHeaders`: one `headers` message applied to the client.
-- The digest of `crypto/sha256` is the parameter `sha256`. The loop over the message recurs on the
-- count that the message declares. `tipHistory` is written while the loop runs, the rest of the
-- client after it, so a run that fails returns the history that it had reached.
use doge_lucky_mining.Common.{
  ℕ, zero, suc, ◌+◌, ◌/◌, ◌%◌, Bool, true, false, Option, none, some, List, [], ◌∷◌, ◌++◌, Result,
  ok, err, length, take, drop, ltb, ◌==◌, if◌then◌else◌, bytes_equal,
}
use doge_lucky_mining.Bytes.{Bytes, get_le}
use doge_lucky_mining.Hex.{Text}
use doge_lucky_mining.HashCompare.{hash_to_display_hex}
use doge_lucky_mining.Wire.{Reader, return, ◌>>=◌, ◌>>◌, read_full, read_var_int}
use doge_lucky_mining.Block.{BlockHeader}
use doge_lucky_mining.Block.Skip.{skip_aux_pow}
use doge_lucky_mining.Compact.{doge_pow_limit_compact}
use doge_lucky_mining.P2P.{P2PClient}
use doge_lucky_mining.P2P.Locator.{prepend_locator_hashes_from_batch}

pub data HeadersError : Type 0 where
  no_count bad_stream non_continuous : HeadersError

-- `(version & versionAuxPow) != 0`: bit 8 of the version.
unfoldable pub has_aux_pow : ℕ → Bool
has_aux_pow version = version / 0x100 % 2 == 1

-- The slice `b[from:from+n]`.
abbrev pub slice : ℕ → ℕ → Bytes → Bytes
slice from n b = take n (drop from b)

unfoldable pub skip_aux_pow_if : Bool → Reader (Unit {0})
skip_aux_pow_if true = skip_aux_pow
skip_aux_pow_if false = return tt

-- One entry of the message: 80 bytes, merge-mining data if the version has it, a transaction count.
unfoldable pub read_header : Reader Bytes
read_header = do
  header_bytes ← read_full 80
  skip_aux_pow_if (has_aux_pow (get_le (slice 0 4 header_bytes)))
  txn_count ← read_var_int
  return header_bytes

module _ (sha256 : Bytes → Bytes) where
  -- `blockHashChain`
  unfoldable pub block_hash_chain : Bytes → Bytes
  block_hash_chain header = sha256 (sha256 header)

  unfoldable pub parse_header : ℕ → Bytes → BlockHeader
  parse_header height b = record {
    version = get_le (slice 0 4 b);
    prev_block = slice 4 32 b;
    merkle_root = slice 36 32 b;
    timestamp = get_le (slice 68 4 b);
    bits = get_le (slice 72 4 b);
    nonce = get_le (slice 76 4 b);
    height = height;
    hash = block_hash_chain b;
  }

-- The variables of the loop.
pub record Scan : Type 0 where
  pub height : ℕ
  pub last_header : Option BlockHeader
  pub carry_last_non_min : ℕ
  pub locator_batch : List Bytes
  pub parent_ts_for_tip : ℕ
  pub expected_prev : Bytes
  pub parent_ts : ℕ
  pub tip_history : List (ℕ × Text)

-- `tipHistory[h] = hash`
unfoldable pub put_history : ℕ → Text → List (ℕ × Text) → List (ℕ × Text)
put_history h t [] = (h, t) ∷ []
put_history h t ((k, u) ∷ m) = if k == h then (h, t) ∷ m else (k, u) ∷ put_history h t m

-- The entries below `h - 500` go. (The difference may be negative in the code; then none is below.)
unfoldable pub drop_below : ℕ → List (ℕ × Text) → List (ℕ × Text)
drop_below h [] = []
drop_below h ((k, t) ∷ m) =
    let rest = drop_below h m in if ltb (k + 500) h then rest else (k, t) ∷ rest

unfoldable pub record_history : BlockHeader → List (ℕ × Text) → List (ℕ × Text)
record_history h m =
    let m' = put_history h.height (hash_to_display_hex h.hash) m in
    if ltb 500 (length m') then drop_below h.height m' else m'

unfoldable pub start_scan : P2PClient → Scan
start_scan p = record {
  height = elim p.best_header [
    | some h ↦ p.best_height
    | none ↦ if p.has_start_checkpoint then p.start_height else p.best_height
  ];
  last_header = none;
  carry_last_non_min = p.last_non_min_difficulty_bits;
  locator_batch = [];
  parent_ts_for_tip = 0;
  expected_prev = elim p.best_header [
    | some h ↦ h.hash
    | none ↦ if p.has_start_checkpoint then p.start_locator_hash else p.genesis_hash_wire
  ];
  parent_ts = elim p.best_header [
    | some h ↦ h.timestamp
    | none ↦ if p.has_start_checkpoint then 0 else p.genesis_timestamp
  ];
  tip_history = p.tip_history;
}

-- The rest of a round, for a header that links.
unfoldable pub advance : BlockHeader → Scan → Scan
advance h s = record s {
  height = h.height;
  last_header = some h;
  carry_last_non_min = if h.bits == doge_pow_limit_compact then s.carry_last_non_min else h.bits;
  locator_batch = s.locator_batch ++ (h.hash ∷ []);
  parent_ts_for_tip = s.parent_ts;
  expected_prev = h.hash;
  parent_ts = h.timestamp;
  tip_history = record_history h s.tip_history;
}

unfoldable pub commit : ℕ → Scan → P2PClient → P2PClient
commit now s p = elim s.last_header [
  | none ↦ p
  | some h ↦ record p {
    best_header = some h;
    best_height = h.height;
    last_non_min_difficulty_bits = s.carry_last_non_min;
    tip_parent_timestamp = s.parent_ts_for_tip;
    last_headers_applied_at = some now;
    locator_hashes = prepend_locator_hashes_from_batch s.locator_batch p.locator_hashes;
  }
]

module _ (sha256 : Bytes → Bytes) where
  -- `n` more headers, from the input that is left.
  unfoldable pub scan : ℕ → Scan → Bytes → Scan × Option HeadersError
  scan zero s r = (s, none)
  scan (suc n) s r = elim (read_header r) [
    | err e ↦ (s, some bad_stream)
    | ok (b, r') ↦
        elim (bytes_equal (parse_header sha256 (s.height + 1) b).prev_block s.expected_prev) [
          | true ↦ scan n (advance (parse_header sha256 (s.height + 1) b) s) r'
          | false ↦ (s, some non_continuous)
        ]
  ]

  unfoldable pub apply_scan :
      ℕ → ℕ → P2PClient → Scan × Option HeadersError → P2PClient × Result HeadersError ℕ
  apply_scan now count p (s, some e) = (record p { tip_history = s.tip_history }, err e)
  apply_scan now count p (s, none) =
      (commit now s (record p { tip_history = s.tip_history }), ok count)

  -- `now` is `time.Now()`.
  unfoldable pub process_headers : ℕ → Bytes → P2PClient → P2PClient × Result HeadersError ℕ
  process_headers now payload p = elim (read_var_int payload) [
    | err e ↦ (p, err no_count)
    | ok (zero, r) ↦ (p, ok 0)
    | ok (suc n, r) ↦ apply_scan now (suc n) p (scan (suc n) (start_scan p) r)
  ]
