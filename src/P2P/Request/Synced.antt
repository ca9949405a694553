-- ===== src/P2P/Request/Synced.antt =====
-- `requestHeaders` with a peer that answers every request.
use doge_lucky_mining.Common.{
  ℕ, zero, suc, ◌-◌, ◌*◌, ◌≤◌, ◌<◌, ◌≡◌, refl, sym, ◌∙◌, ap, arith, true, false, Option, none, some,
  List, [], ◌∷◌, ◌++◌, length, ◌==◌, lt→ltb, le→not_ltb, ok, Result-cases, Option-cases, inl, inr,
  All,
}
use doge_lucky_mining.Bytes.{Bytes, put_le}
use doge_lucky_mining.Hex.{codes}
use doge_lucky_mining.Wire.{read_var_int}
use doge_lucky_mining.P2P.{P2PClient}
use doge_lucky_mining.P2P.Headers.{
  HeadersError, Scan, commit, apply_scan, scan, start_scan, process_headers,
}
use doge_lucky_mining.P2P.Locator.{get_headers_payload}
use doge_lucky_mining.P2P.Message.{read_message, write_message, message_header, max_payload}
use doge_lucky_mining.P2P.Message.Laws.{read_whole}
use doge_lucky_mining.P2P.Handshake.{Conn, send}
use doge_lucky_mining.P2P.Request.{asking, waiting, sync, request_headers, max_headers_per_message}

-- Header sync keeps the connection and the network's magic.
abbrev Keeps : P2PClient → P2PClient → Type 0
Keeps p q = (q.connected ≡ p.connected) × (q.magic ≡ p.magic)

commit-Keeps : (now : ℕ) (s : Scan) (p : P2PClient) → Keeps p (commit now s p)
unfolding commit
commit-Keeps now s p = elim (Option-cases s.last_header) [
  | inl e ↦ (simp (commit, e), simp (commit, e))
  | inr (h, e) ↦ (simp (commit, e), simp (commit, e))
]

apply_scan-Keeps :
    (sha256 : Bytes → Bytes) (now count : ℕ) (p : P2PClient) (out : Scan × Option HeadersError)
    → Keeps p ((apply_scan sha256 now count p out).0)
unfolding apply_scan
apply_scan-Keeps sha256 now count p (s, some e) = (refl, refl)
apply_scan-Keeps sha256 now count p (s, none) =
    commit-Keeps now s (record p { tip_history = s.tip_history })

process_headers-Keeps :
    (sha256 : Bytes → Bytes) (now : ℕ) (payload : Bytes) (p : P2PClient)
    → Keeps p ((process_headers sha256 now payload p).0)
unfolding process_headers
process_headers-Keeps sha256 now payload p = elim (Result-cases (read_var_int payload)) [
  | inl ((zero, r), e) ↦ (simp (process_headers, e), simp (process_headers, e))
  | inl ((suc n, r), e) ↦
      rw (process_headers, e)
        (apply_scan-Keeps sha256 now (suc n) p (scan sha256 (suc n) (start_scan p) r))
  | inr (d, e) ↦ (simp (process_headers, e), simp (process_headers, e))
]

module _ (sha256 : Bytes → Bytes) where
  -- What the peer sends: a `headers` message for every batch, and what comes after.
  abbrev pub frames : Bytes → Bytes → List Bytes → Bytes
  frames magic after [] = after
  frames magic after (batch ∷ batches) =
      message_header sha256 magic (codes "headers") batch ++ (batch ++ frames magic after batches)

  headers_read :
      (w : Conn) (p : P2PClient) (batch after : Bytes) (batches : List Bytes)
      → ((x : Bytes) → length (sha256 x) ≡ 32)
      → length p.magic ≡ 4
      → length batch ≤ max_payload
      → w.input ≡ frames p.magic after (batch ∷ batches)
      → read_message sha256 w.timeout w.input p
        ≡ (p, frames p.magic after batches, ok (codes "headers", batch))
  headers_read w p batch after batches hashes magic_4 fits sent =
      ap (λ x. read_message sha256 w.timeout x p) sent
      ∙ read_whole sha256 hashes w.timeout p (codes "headers") batch (frames p.magic after batches)
          magic_4 (omega arith) (omega arith) fits

module _ (sha256 : Bytes → Bytes) (clock : ℕ → ℕ) where
  -- The client after batches of headers that it accepts one by one, of which only the last is not
  -- full; `ticks` are the tests of the clock that are left, of which a batch takes two.
  abbrev pub Follows : ℕ → P2PClient → List Bytes → P2PClient → ℕ → Type 0
  Follows ticks p [] q n = ⊥
  Follows ticks p (batch ∷ []) q n =
      (process_headers sha256 (clock (ticks - 2)) batch p ≡ (q, ok n))
      × (n < max_headers_per_message)
  Follows ticks p (batch ∷ next ∷ batches) q n =
      (m : P2PClient) × (k : ℕ) × (process_headers sha256 (clock (ticks - 2)) batch p ≡ (m, ok k))
      × (max_headers_per_message ≤ k)
      × Follows (ticks - 2) m (next ∷ batches) q n

  payload_nonempty : (p : P2PClient) → (length (get_headers_payload p) == 0) ≡ false
  unfolding get_headers_payload put_le
  payload_nonempty p = ground arith

  send_getheaders :
      (w : Conn) (p : P2PClient)
      → p.connected ≡ true
      → 2 ≤ w.writes
      → send sha256 (codes "getheaders") (get_headers_payload p) w p
        ≡ (record w { writes = w.writes - 2 }, p, true)
  unfolding send write_message
  send_getheaders w p on enough = simp (
    send,
    write_message,
    on,
    lt→ltb 0 w.writes (omega (arith, enough)),
    lt→ltb 1 w.writes enough,
    payload_nonempty p,
  )

  asked :
      (ticks : ℕ) (w : Conn) (p : P2PClient)
      → p.connected ≡ true
      → 2 ≤ w.writes
      → sync sha256 clock (suc ticks) asking w p
        ≡ sync sha256 clock ticks waiting (record w { writes = w.writes - 2 }) p
  unfolding sync
  asked ticks w p on enough =
      let sent = send_getheaders w p on enough in
      simp (sync, ap (λ x. x.0) sent, ap (λ x. x.1) sent, ap (λ x. x.2) sent)

  last_batch :
      (ticks : ℕ) (w : Conn) (p q : P2PClient) (batch rest : Bytes) (n : ℕ)
      → read_message sha256 w.timeout w.input p ≡ (p, rest, ok (codes "headers", batch))
      → process_headers sha256 (clock ticks) batch p ≡ (q, ok n)
      → n < max_headers_per_message
      → sync sha256 clock (suc ticks) waiting w p ≡ (q, ok n)
  unfolding sync
  last_batch ticks w p q batch rest n message headers few =
      let got = ap (λ x. process_headers sha256 (clock ticks) batch x.0) message ∙ headers in
      rw (sync, ap (λ x. x.2) message)
        (rw (ap (λ x. x.1) got)
          (rw (lt→ltb n max_headers_per_message few) (ap (λ x. (x.0, ok n)) got)))

  full_batch :
      (ticks : ℕ) (w : Conn) (p q : P2PClient) (batch rest : Bytes) (n : ℕ)
      → read_message sha256 w.timeout w.input p ≡ (p, rest, ok (codes "headers", batch))
      → process_headers sha256 (clock ticks) batch p ≡ (q, ok n)
      → max_headers_per_message ≤ n
      → sync sha256 clock (suc ticks) waiting w p
        ≡ sync sha256 clock ticks asking (record w { input = rest }) q
  unfolding sync
  full_batch ticks w p q batch rest n message headers many =
      let got = ap (λ x. process_headers sha256 (clock ticks) batch x.0) message ∙ headers in
      rw (sync, ap (λ x. x.2) message)
        (rw (ap (λ x. x.1) got) (
          rw (le→not_ltb n max_headers_per_message many) (
            ap
              (λ x.
                sync sha256 clock ticks asking (record w { input = x.1 })
                  ((process_headers sha256 (clock ticks) batch x.0).0))
              message
            ∙ ap (λ x. sync sha256 clock ticks asking (record w { input = rest }) x.0) headers)))

  back : (t : ℕ) → suc (suc t) - 2 ≡ t
  back t = omega arith

  synced :
      (batches : List Bytes) (ticks : ℕ) (w : Conn) (p q : P2PClient) (after : Bytes) (n : ℕ)
      → ((x : Bytes) → length (sha256 x) ≡ 32)
      → p.connected ≡ true
      → length p.magic ≡ 4
      → All (λ b. length b ≤ max_payload) batches
      → w.input ≡ frames sha256 p.magic after batches
      → 2 * length batches ≤ w.writes
      → 2 * length batches ≤ ticks
      → Follows ticks p batches q n
      → sync sha256 clock ticks asking w p ≡ (q, ok n)
  synced [] ticks w p q after n hashes on magic_4 fit sent writes time follows = elim follows [ ]
  synced (b ∷ bs) zero w p q after n hashes on magic_4 fit sent writes time follows = ground arith
  synced (b ∷ bs) (suc zero) w p q after n hashes on magic_4 fit sent writes time follows =
      ground arith
  synced (b ∷ []) (suc (suc t)) w p q after n hashes on magic_4 fit sent writes time follows =
      asked (suc t) w p on (omega arith)
      ∙ last_batch t (record w { writes = w.writes - 2 }) p q b after n
          (headers_read sha256 w p b after [] hashes magic_4 fit.0 sent) (rw (back t) at follows.0)
          follows.1
  synced (b ∷ c ∷ bs) (suc (suc t)) w p q after n hashes on magic_4 fit sent writes time
        (m, k, headers, full, follows) =
      let headers_t = rw (back t) at headers in
      let (on', magic') = process_headers-Keeps sha256 (clock t) b p in
      let same_magic = sym (ap (λ x. x.0.magic) headers_t) ∙ magic' in
      let rest = frames sha256 p.magic after (c ∷ bs) in
      asked (suc t) w p on (omega arith)
      ∙ full_batch t (record w { writes = w.writes - 2 }) p m b rest k
          (headers_read sha256 w p b after (c ∷ bs) hashes magic_4 fit.0 sent) headers_t full
      ∙ synced (c ∷ bs) t (record w { input = rest; writes = w.writes - 2 }) m q after n hashes
          (sym (ap (λ x. x.0.connected) headers_t) ∙ on' ∙ on) (ap length same_magic ∙ magic_4)
          fit.1 (ap (λ x. frames sha256 x after (c ∷ bs)) (sym same_magic)) (omega (arith, writes))
          (omega (arith, time)) (rw (back t) at follows)

  -- With a peer that answers every request with a batch of headers that the client accepts, of which
  -- only the last has fewer than 2000, `requestHeaders` takes all of them and ends without an error,
  -- if the payloads fit into a message and the clock and the connection last for all requests:
  -- the client is then what one `processHeaders` after the other makes of it.
  pub request_headers_synced :
      (batches : List Bytes) (w : Conn) (p q : P2PClient) (after : Bytes) (n : ℕ)
      → ((x : Bytes) → length (sha256 x) ≡ 32)
      → p.connected ≡ true
      → length p.magic ≡ 4
      → All (λ b. length b ≤ max_payload) batches
      → w.input ≡ frames sha256 p.magic after batches
      → 2 * length batches ≤ w.writes
      → 2 * length batches ≤ w.ticks
      → Follows w.ticks (record p { last_headers_req = some (clock w.ticks) }) batches q n
      → request_headers sha256 clock w p ≡ (q, ok n)
  unfolding request_headers
  request_headers_synced batches w p q after n hashes on magic_4 fit sent writes time follows =
      synced batches w.ticks w (record p { last_headers_req = some (clock w.ticks) }) q after n
        hashes on magic_4 fit sent writes time follows
