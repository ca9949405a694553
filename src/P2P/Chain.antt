-- ===== src/P2P/Chain.antt =====
-- What a run of `processHeaders` says of the headers that it took: they form a chain from the block
-- that the client expected, with consecutive heights.
use doge_lucky_mining.Common.{
  ℕ, zero, suc, ◌+◌, ◌≡◌, refl, ap, ◌∙◌, inl, inr, true, false, Option, none, some, List, [], ◌∷◌,
  arith, Result, ok, err, length, bytes_equal, bytes_equal_refl, bytes_equal→eq, sym, ◌<◌,
  Bool-cases, Result-cases,
}
use doge_lucky_mining.Bytes.{Bytes}
use doge_lucky_mining.Wire.{ReadError, read_var_int}
use doge_lucky_mining.Block.{BlockHeader}
use doge_lucky_mining.P2P.{P2PClient}
use doge_lucky_mining.P2P.Headers.{
  HeadersError, no_count, bad_stream, non_continuous, Scan, parse_header, read_header, start_scan,
  advance, commit, scan, apply_scan, process_headers,
}
use doge_lucky_mining.P2P.Held.{IsEntry, Holds, read_header-IsEntry, IsEntry-read_header}
use doge_lucky_mining.P2P.Accepted.{accepted, commit-advance_all}
use doge_lucky_mining.P2P.Advance.{Linked, Numbered, advance_all}

-- What the header after these names.
abbrev pub last_hash : Bytes → List BlockHeader → Bytes
last_hash prev [] = prev
last_hash prev (h ∷ hs) = last_hash h.hash hs

-- Why the loop ends where the bytes `rest` are left and the next header should name `prev`: all headers were
-- taken, no entry follows, or the next entry names another block.
pub data Stops (sha256 : Bytes → Bytes) : Option HeadersError → Bytes → Bytes → Type 0 where
  went_through : {prev rest : Bytes} → Stops sha256 none prev rest
  no_entry :
      {prev rest : Bytes}
      → ((h : BlockHeader) (r : Bytes) → ¬ IsEntry sha256 h rest r)
      → Stops sha256 (some bad_stream) prev rest
  no_link :
      {prev rest : Bytes} {h : BlockHeader} {r : Bytes}
      → IsEntry sha256 h rest r
      → ¬ (h.prev_block ≡ prev)
      → Stops sha256 (some non_continuous) prev rest

module _ (sha256 : Bytes → Bytes) where
  -- Any run of the loop took a chain of headers off the bytes `r`: all `n` of them if it did not fail.
  pub record Took (n : ℕ) (s : Scan) (r : Bytes) (out : Scan × Option HeadersError)
      (hs : List BlockHeader) : Type 0 where
    pub rest : Bytes
    pub linked : Linked s.expected_prev hs
    pub numbered : Numbered s.height hs
    pub held : Holds sha256 hs r rest
    pub stops : Stops sha256 out.1 (last_hash s.expected_prev hs) rest
    pub result : out.0 ≡ advance_all hs s
    pub all_of : out.1 ≡ none → length hs ≡ n
    pub some_left : (e : HeadersError) → out.1 ≡ some e → length hs < n

  Took-none :
      (n : ℕ) (s : Scan) (r : Bytes) (e : HeadersError)
      → Stops sha256 (some e) s.expected_prev r
      → Took (suc n) s r (s, some e) []
  unfolding advance_all
  Took-none n s r e k = record {
    rest = r;
    linked = tt;
    numbered = tt;
    held = refl;
    stops = k;
    result = refl;
    all_of = λ h. cc;
    some_left = λ d h. omega arith;
  }

  Took-more :
      (n : ℕ) (s : Scan) (h : BlockHeader) (r r' : Bytes) (out : Scan × Option HeadersError)
      (hs : List BlockHeader)
      → h.height ≡ s.height + 1
      → h.prev_block ≡ s.expected_prev
      → IsEntry sha256 h r r'
      → Took n (advance h s) r' out hs
      → Took (suc n) s r out (h ∷ hs)
  unfolding advance advance_all
  Took-more n s h r r' out hs he hp entry t = record {
    rest = t.rest;
    linked = (hp, t.linked);
    numbered = (he, rw (← he) t.numbered);
    held = (r', entry, t.held);
    stops = t.stops;
    result = t.result;
    all_of = λ e. ap suc (t.all_of e);
    some_left = λ d e. omega (arith, t.some_left d e);
  }

  Took-all : (s : Scan) (r : Bytes) → Took 0 s r (s, none) []
  unfolding advance_all
  Took-all s r = record {
    rest = r;
    linked = tt;
    numbered = tt;
    held = refl;
    stops = went_through;
    result = refl;
    all_of = λ h. refl;
    some_left = λ d h. cc;
  }

  -- What the code does with the bytes of one header.
  abbrev linked_or_fail : ℕ → Scan → BlockHeader → Bytes → Scan × Option HeadersError
  linked_or_fail n s h r = elim (bytes_equal h.prev_block s.expected_prev) [
    | true ↦ scan sha256 n (advance h s) r
    | false ↦ (s, some non_continuous)
  ]

  bytes_differ : (a b : Bytes) → bytes_equal a b ≡ false → ¬ (a ≡ b)
  bytes_differ a b e p =
      absurd (true_false (sym (bytes_equal_refl b) ∙ ap (λ c. bytes_equal c b) (sym p) ∙ e))
    where
      true_false : true ≡ false → ⊥
      true_false q = cc

  Took-entry :
      (n : ℕ) (s : Scan) (h : BlockHeader) (r r' : Bytes)
      → IsEntry sha256 h r r'
      → h.height ≡ s.height + 1
      → (hs : List BlockHeader) × Took n (advance h s) r' (scan sha256 n (advance h s) r') hs
      → (hs : List BlockHeader) × Took (suc n) s r (linked_or_fail n s h r') hs
  Took-entry n s h r r' entry height (hs, t) =
      elim (Bool-cases (bytes_equal h.prev_block s.expected_prev)) [
        | inl e ↦ (
          h ∷ hs,
          rw (e, linked_or_fail) (Took-more n s h r r' _ hs height (bytes_equal→eq _ _ e) entry t),
        )
        | inr e ↦ (
          [],
          rw (e, linked_or_fail)
              (Took-none n s r non_continuous
                (no_link entry (bytes_differ h.prev_block s.expected_prev e))),
        )
      ]

  refused-IsEntry :
      (r : Bytes) (e : ReadError)
      → read_header r ≡ err e
      → (h : BlockHeader) (r' : Bytes) → ¬ IsEntry sha256 h r r'
  refused-IsEntry r e q h r' k = absurd (ok_err (sym (IsEntry-read_header sha256 h r r' k) ∙ q))
    where
      ok_err : {x : Bytes × Bytes} → ok x ≡ err e → ⊥
      ok_err p = cc

  pub scan-Took :
      (n : ℕ) (s : Scan) (r : Bytes) → (hs : List BlockHeader) × Took n s r (scan sha256 n s r) hs
  unfolding scan parse_header
  scan-Took zero s r = ([], Took-all s r)
  scan-Took (suc n) s r = elim (Result-cases (read_header r)) [
    | inr (e, q) ↦
        ([], rw (q, scan) (Took-none n s r bad_stream (no_entry (refused-IsEntry r e q))))
    | inl ((b, r'), q) ↦
        rw (q, scan)
          (Took-entry n s (parse_header sha256 (s.height + 1) b) r r'
            (read_header-IsEntry sha256 (s.height + 1) r b r' q) refl
            (scan-Took n (advance (parse_header sha256 (s.height + 1) b) s) r'))
  ]

apply_scan_ok :
    (sha256 : Bytes → Bytes) (now count n : ℕ) (p p' : P2PClient) (out : Scan × Option HeadersError)
    → apply_scan sha256 now count p out ≡ (p', ok n)
    → (out.1 ≡ none)
      × (count ≡ n)
      × (p' ≡ commit now out.0 (record p { tip_history = out.0.tip_history }))
unfolding apply_scan
apply_scan_ok sha256 now count n p p' (s, some e) h = absurd (cc h)
apply_scan_ok sha256 now count n p p' (s, none) h = (refl, cc h, cc h)

sound_of_scan :
    (sha256 : Bytes → Bytes) (now count n : ℕ) (p p' : P2PClient) (payload r : Bytes)
    → read_var_int payload ≡ ok (count, r)
    → apply_scan sha256 now count p (scan sha256 count (start_scan p) r) ≡ (p', ok n)
    → (hs : List BlockHeader) × (r : Bytes) × (rest : Bytes) × (read_var_int payload ≡ ok (n, r))
      × Holds sha256 hs r rest
      × (length hs ≡ n)
      × Linked (start_scan p).expected_prev hs
      × Numbered (start_scan p).height hs
      × (p' ≡ accepted now hs p)
sound_of_scan sha256 now count n p p' payload r q h =
    let (hs, t) = scan-Took sha256 count (start_scan p) r in
    let (done, e, f) =
      apply_scan_ok sha256 now count n p p' (scan sha256 count (start_scan p) r) h in
    (
      hs,
      r,
      t.rest,
      q ∙ ap (λ k. ok (k, r)) e,
      t.held,
      t.all_of done ∙ e,
      t.linked,
      t.numbered,
      f ∙ rw t.result (commit-advance_all now hs p t.numbered),
    )

no_count_ne_ok :
    {p p' : P2PClient} {n : ℕ}
    → ◌≡◌ {A = P2PClient × Result HeadersError ℕ} (p, err no_count) (p', ok n)
    → ⊥
no_count_ne_ok h = cc

-- Every message that `processHeaders` accepts starts with the number that it reports, and behind it stand
-- the bytes of as many headers: the 80 bytes of the fields, whose double digest is the header's hash,
-- merge-mining data, which `skipAuxPow` passes over, exactly if bit 8 of the version is set, and a
-- count. The first header names the block that the client expected, each other one names the hash of the
-- one before it, and heights are consecutive. The client's new state is that of these headers.
pub process_headers_sound :
    (sha256 : Bytes → Bytes) (now : ℕ) (payload : Bytes) (p p' : P2PClient) (n : ℕ)
    → process_headers sha256 now payload p ≡ (p', ok n)
    → (hs : List BlockHeader) × (r : Bytes) × (rest : Bytes) × (read_var_int payload ≡ ok (n, r))
      × Holds sha256 hs r rest
      × (length hs ≡ n)
      × Linked (start_scan p).expected_prev hs
      × Numbered (start_scan p).height hs
      × (p' ≡ accepted now hs p)
unfolding process_headers
process_headers_sound sha256 now payload p p' n h = elim (Result-cases (read_var_int payload)) [
  | inr (e, q) ↦ absurd (no_count_ne_ok (rw (q, process_headers) at h))
  | inl ((zero, r), q) ↦
      let e : ◌≡◌ {A = P2PClient × Result HeadersError ℕ} (p, ok 0) (p', ok n) =
        rw (q, process_headers) at h in
      let none_of : 0 ≡ n = cc e in
      ([], r, r, q ∙ ap (λ k. ok (k, r)) none_of, refl, none_of, tt, tt, (unfold accepted in cc e))
  | inl ((suc k, r), q) ↦
      sound_of_scan sha256 now (suc k) n p p' payload r q (rw (q, process_headers) at h)
]
