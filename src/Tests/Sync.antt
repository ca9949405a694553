-- ===== src/Tests/Sync.antt =====
-- The loop of header requests at a concrete peer.
use doge_lucky_mining.Common.{
  ℕ, ◌+◌, ◌≡◌, refl, arith, true, some, [], ◌∷◌, ◌++◌, length, ok, length-take, length-append,
  replicate, leb→le, ◌≤◌,
}
use doge_lucky_mining.Bytes.{Bytes, put_le}
use doge_lucky_mining.Wire.{write_var_int}
use doge_lucky_mining.Block.{
  serialize_block_header, serialize_aux_pow, serialize_coinbase, serialize_tx, serialize_inputs,
  serialize_input, serialize_outputs, serialize_output, serialize_parent,
}
use doge_lucky_mining.P2P.{P2PClient}
use doge_lucky_mining.P2P.Message.{max_payload}
use doge_lucky_mining.P2P.Headers.{process_headers, start_scan}
use doge_lucky_mining.P2P.Accepted.{accepted}
use doge_lucky_mining.P2P.Link.{message, headers, process_headers_complete}
use doge_lucky_mining.P2P.Handshake.{Conn}
use doge_lucky_mining.P2P.Request.{request_headers}
use doge_lucky_mining.P2P.Request.Synced.{frames, request_headers_synced}
use doge_lucky_mining.Tests.Data.{first_bytes, a_client}
use doge_lucky_mining.Tests.Chain.{entries, entries-EntriesFit}

abbrev clock : ℕ → ℕ
clock ticks = 1700000000000 + ticks

abbrev online : P2PClient
online = record a_client { connected = true }

abbrev asking_client : P2PClient
asking_client = record online { last_headers_req = some (clock 9) }

-- A peer that has the two headers of the message, and one more byte.
abbrev batch : Bytes
batch = message entries ++ []

abbrev answering : Conn
answering = record {
  input = frames first_bytes online.magic (7 ∷ []) (batch ∷ []);
  timeout = true;
  writes = 4;
  ticks = 9;
  drain_ticks = 0;
}

batch_taken :
    process_headers first_bytes (clock 7) batch asking_client
    ≡ (accepted (clock 7) (headers entries) asking_client, ok 2)
batch_taken =
    process_headers_complete first_bytes (clock 7) entries [] asking_client (omega arith)
      entries-EntriesFit (unfold start_scan in (refl, (refl, tt)))
      (unfold start_scan in (refl, (refl, tt)))

first_bytes_32 : (x : Bytes) → length (first_bytes x) ≡ 32
first_bytes_32 x =
    omega (arith, length-take 32 (x ++ replicate 32 1), length-append x (replicate 32 1))

batch_fits : length batch ≤ max_payload
unfolding write_var_int serialize_block_header put_le serialize_aux_pow serialize_coinbase
    serialize_tx serialize_inputs serialize_input serialize_outputs serialize_output
    serialize_parent
batch_fits = leb→le (length batch) max_payload refl

request_headers_synced_example :
    request_headers first_bytes clock answering online
    ≡ (accepted (clock 7) (headers entries) asking_client, ok 2)
request_headers_synced_example =
    request_headers_synced first_bytes clock (batch ∷ []) answering online
      (accepted (clock 7) (headers entries) asking_client) (7 ∷ []) 2 first_bytes_32 refl refl
      (batch_fits, tt) refl (omega arith) (omega arith) (batch_taken, omega arith)
