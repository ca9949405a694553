-- ===== src/P2P/Atomic.antt =====
-- A `headers` message that `processHeaders` refuses.
use doge_lucky_mining.Common.{
  ℕ, zero, suc, ◌<◌, ◌≡◌, ◌⊎◌, ap, ◌∙◌, inl, inr, Option, none, some, List, Result, ok, err, length,
  Result-cases,
}
use mathlib.Core.Path.{subst}
use doge_lucky_mining.Bytes.{Bytes}
use doge_lucky_mining.Wire.{ReadError, read_var_int}
use doge_lucky_mining.Block.{BlockHeader}
use doge_lucky_mining.P2P.{P2PClient}
use doge_lucky_mining.P2P.Headers.{
  HeadersError, no_count, Scan, start_scan, scan, apply_scan, process_headers,
}
use doge_lucky_mining.P2P.Advance.{Linked, Numbered, advance_all}
use doge_lucky_mining.P2P.Held.{Holds}
use doge_lucky_mining.P2P.Accepted.{history, history-advance_all}
use doge_lucky_mining.P2P.Chain.{last_hash, Stops, scan-Took}

apply_scan_err :
    (sha256 : Bytes → Bytes) (now count : ℕ) (p p' : P2PClient) (out : Scan × Option HeadersError)
    (e : HeadersError)
    → apply_scan sha256 now count p out ≡ (p', err e)
    → (out.1 ≡ some e) × (p' ≡ record p { tip_history = out.0.tip_history })
unfolding apply_scan
apply_scan_err sha256 now count p p' (s, some d) e h = (cc h, cc h)
apply_scan_err sha256 now count p p' (s, none) e h = absurd (cc h)

-- The message breaks off after the headers `hs`, which it announces more of.
pub record Faulty (sha256 : Bytes → Bytes) (payload : Bytes) (p p' : P2PClient) (e : HeadersError)
    (hs : List BlockHeader) : Type 0 where
  pub count : ℕ
  pub r : Bytes
  pub rest : Bytes
  pub announced : read_var_int payload ≡ ok (count, r)
  pub fewer : length hs < count
  pub held : Holds sha256 hs r rest
  pub linked : Linked (start_scan p).expected_prev hs
  pub numbered : Numbered (start_scan p).height hs
  pub stops : Stops sha256 (some e) (last_hash (start_scan p).expected_prev hs) rest
  pub recorded : p' ≡ record p { tip_history = history hs p.tip_history }

from_start :
    (p : P2PClient) (hs : List BlockHeader)
    → (advance_all hs (start_scan p)).tip_history ≡ history hs p.tip_history
from_start p hs = unfold start_scan in history-advance_all hs (start_scan p)

scan-Faulty :
    (sha256 : Bytes → Bytes) (now n : ℕ) (payload r : Bytes) (p p' : P2PClient) (e : HeadersError)
    → read_var_int payload ≡ ok (n, r)
    → apply_scan sha256 now n p (scan sha256 n (start_scan p) r) ≡ (p', err e)
    → (hs : List BlockHeader) × Faulty sha256 payload p p' e hs
scan-Faulty sha256 now n payload r p p' e q h =
    let (hs, t) = scan-Took sha256 n (start_scan p) r in
    let (fault, f) = apply_scan_err sha256 now n p p' (scan sha256 n (start_scan p) r) e h in
    (
      hs,
      record {
        count = n;
        r = r;
        rest = t.rest;
        announced = q;
        fewer = t.some_left e fault;
        held = t.held;
        linked = t.linked;
        numbered = t.numbered;
        stops =
            subst (λ d. Stops sha256 d (last_hash (start_scan p).expected_prev hs) t.rest) fault
              t.stops;
        recorded =
            f
            ∙ ap (λ m. record p { tip_history = m })
                (ap (λ (s : Scan). s.tip_history) t.result ∙ from_start p hs);
      },
    )

-- When `processHeaders` reports an error, the message has no count and the client is as before, or the
-- message announces more headers than it goes on with: behind the entries of fewer headers, which
-- link to each other and to the block that the client expected and have consecutive heights, stands no
-- entry, or that of a header that does not name the last hash, and the error says which. The tip, the
-- height, the locator ring and the values for the next work are then those from before the message,
-- and the history has just these headers recorded in it, in their order.
pub process_headers_failed :
    (sha256 : Bytes → Bytes) (now : ℕ) (payload : Bytes) (p p' : P2PClient) (e : HeadersError)
    → process_headers sha256 now payload p ≡ (p', err e)
    → ((d : ReadError) × (read_var_int payload ≡ err d) × (e ≡ no_count) × (p' ≡ p))
      ⊎ ((hs : List BlockHeader) × Faulty sha256 payload p p' e hs)
unfolding process_headers
process_headers_failed sha256 now payload p p' e h = elim (Result-cases (read_var_int payload)) [
  | inr (d, q) ↦
      let g : ◌≡◌ {A = P2PClient × Result HeadersError ℕ} (p, err no_count) (p', err e) =
        rw (q, process_headers) at h in
      inl (d, q, cc g, cc g)
  | inl ((zero, r), q) ↦ absurd (zero_ne_err (rw (q, process_headers) at h))
  | inl ((suc n, r), q) ↦
      inr (scan-Faulty sha256 now (suc n) payload r p p' e q (rw (q, process_headers) at h))
]
  where
    zero_ne_err : ◌≡◌ {A = P2PClient × Result HeadersError ℕ} (p, ok 0) (p', err e) → ⊥
    zero_ne_err h = cc
