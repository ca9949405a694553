-- ===== src/P2P/Request.antt =====
-- `requestHeaders` of p2p.go: it asks for headers and reads messages until the peer has no more.
-- The connection is that of P2P.Handshake; `ticks` counts the tests of the clock that come before the
-- deadline, and `clock` gives the time by the tests that are left. What a `reject` message says
-- is only logged.
pub mod Synced
use doge_lucky_mining.Common.{
  ℕ, zero, suc, Bool, true, false, some, Result, ok, err, ltb, bytes_equal,
}
use doge_lucky_mining.Bytes.{Bytes}
use doge_lucky_mining.Hex.{codes}
use doge_lucky_mining.P2P.{P2PClient}
use doge_lucky_mining.P2P.Headers.{HeadersError, process_headers}
use doge_lucky_mining.P2P.Locator.{get_headers_payload}
use doge_lucky_mining.P2P.Message.{MessageError, read_message}
use doge_lucky_mining.P2P.Handshake.{Conn, send}

abbrev pub max_headers_per_message : ℕ
max_headers_per_message = 2000

-- The errors of `requestHeaders`; `no_response` and `out_of_time` are its two deadlines.
pub data SyncError : Type 0 where
  not_sent no_response out_of_time : SyncError
  bad_message : MessageError → SyncError
  bad_headers : HeadersError → SyncError

-- Whether the loop is before its request, or waits for the answer.
pub data Phase : Type 0 where
  asking waiting : Phase

unfoldable pub deadline_passed : Phase → SyncError
deadline_passed asking = out_of_time
deadline_passed waiting = no_response

module _ (sha256 : Bytes → Bytes) (clock : ℕ → ℕ) where
  unfoldable pub sync : ℕ → Phase → Conn → P2PClient → P2PClient × Result SyncError ℕ
  sync zero phase w p = (p, err (deadline_passed phase))
  sync (suc ticks) asking w p =
      let (w', p', sent) = send sha256 (codes "getheaders") (get_headers_payload p) w p in
      elim sent [ true ↦ sync ticks waiting w' p' | false ↦ (p', err not_sent) ]
  sync (suc ticks) waiting w p =
      let (p', rest, message) = read_message sha256 w.timeout w.input p in
      elim message [
        | err e ↦ (p', err (bad_message e))
        | ok (command, payload) ↦ elim (bytes_equal command (codes "headers")) [
          | true ↦
              let (p'', count) = process_headers sha256 (clock ticks) payload p' in
              elim count [
                | err e ↦ (p'', err (bad_headers e))
                | ok n ↦ elim (ltb n max_headers_per_message) [
                  | true ↦ (p'', ok n)
                  | false ↦ sync ticks asking (record w { input = rest }) p''
                ]
              ]
          | false ↦ elim (bytes_equal command (codes "ping")) [
            | true ↦
                let (w', p'', sent) =
                  send sha256 (codes "pong") payload (record w { input = rest }) p' in
                elim sent [ true ↦ sync ticks waiting w' p'' | false ↦ (p'', err not_sent) ]
            | false ↦ sync ticks waiting (record w { input = rest }) p'
          ]
        ]
      ]

  -- `requestHeaders`, with the number of headers in the last message, which the code logs.
  unfoldable pub request_headers : Conn → P2PClient → P2PClient × Result SyncError ℕ
  request_headers w p = sync w.ticks asking w (record p { last_headers_req = some (clock w.ticks) })
