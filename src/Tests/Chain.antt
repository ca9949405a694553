-- ===== src/Tests/Chain.antt =====
-- Header sync at concrete messages.
use doge_lucky_mining.Common.{
  ◌≡◌, ◌⊎◌, refl, arith, none, some, List, [], ◌∷◌, ◌++◌, ok, err, length,
}
use doge_lucky_mining.Bytes.{Bytes, put_le, get_le}
use doge_lucky_mining.Wire.{ReadError, read_full, read_var_int, read_var_int_tail, write_var_int}
use doge_lucky_mining.Block.{BlockHeader}
use doge_lucky_mining.P2P.Headers.{
  bad_stream, no_count, apply_scan, read_header, skip_aux_pow_if, parse_header, advance,
  record_history, block_hash_chain, has_aux_pow, start_scan, scan, process_headers,
}
use doge_lucky_mining.P2P.{P2PClient}
use doge_lucky_mining.P2P.Advance.{Linked, Numbered}
use doge_lucky_mining.P2P.Accepted.{history, accepted}
use doge_lucky_mining.P2P.Chain.{process_headers_sound}
use doge_lucky_mining.P2P.Held.{Holds}
use doge_lucky_mining.P2P.Link.{
  HeaderFits, Entry, EntriesFit, entry_bytes, message, headers, process_headers_complete,
}
use doge_lucky_mining.P2P.Atomic.{Faulty, process_headers_failed}
use doge_lucky_mining.P2P.History.{HistoryFits, history-HistoryFits}
use doge_lucky_mining.Block.{serialize_block_header}
use doge_lucky_mining.Tests.Codec.{an_aux_pow-AuxPowFits}
use doge_lucky_mining.Tests.Data.{first_bytes, a_client, an_aux_pow, first_header, second_header}

-- Two headers, the second with merge-mining data.
abbrev pub entries : List Entry
entries = (first_header, none) ∷ (second_header, some an_aux_pow) ∷ []

first-HeaderFits : HeaderFits first_header
first-HeaderFits = record {
  prev_32 = refl;
  root_32 = refl;
  version_u32 = omega arith;
  timestamp_u32 = omega arith;
  bits_u32 = omega arith;
  nonce_u32 = omega arith;
}

second-HeaderFits : HeaderFits second_header
second-HeaderFits = record {
  prev_32 = refl;
  root_32 = refl;
  version_u32 = omega arith;
  timestamp_u32 = omega arith;
  bits_u32 = omega arith;
  nonce_u32 = omega arith;
}

first_hash : first_header.hash ≡ block_hash_chain first_bytes (serialize_block_header first_header)
first_hash = unfold block_hash_chain serialize_block_header put_le in refl

second_hash :
    second_header.hash ≡ block_hash_chain first_bytes (serialize_block_header second_header)
second_hash = unfold block_hash_chain serialize_block_header put_le in refl

pub entries-EntriesFit : EntriesFit first_bytes entries
entries-EntriesFit = (
  first-HeaderFits,
  first_hash,
  (unfold has_aux_pow in refl),
  (second-HeaderFits, second_hash, ((unfold has_aux_pow in refl), an_aux_pow-AuxPowFits), tt),
)

process_headers_complete_example :
    process_headers first_bytes 5 (message entries ++ []) a_client
    ≡ (accepted 5 (headers entries) a_client, ok 2)
process_headers_complete_example =
    process_headers_complete first_bytes 5 entries [] a_client (omega arith) entries-EntriesFit
      (unfold start_scan in (refl, (refl, tt))) (unfold start_scan in (refl, (refl, tt)))

-- What `processHeaders` reports of this message, by the theorem above.
taken :
    process_headers first_bytes 5 (message entries ++ []) a_client
    ≡ (accepted 5 (headers entries) a_client, ok 2)
taken =
    process_headers_complete first_bytes 5 entries [] a_client (omega arith) entries-EntriesFit
      (unfold start_scan in (refl, (refl, tt))) (unfold start_scan in (refl, (refl, tt)))

process_headers_sound_example :
    (hs : List BlockHeader) × (r : Bytes) × (rest : Bytes) × (read_var_int (message entries ++ [])
      ≡ ok (2, r))
    × Holds first_bytes hs r rest
    × (length hs ≡ 2)
    × Linked (start_scan a_client).expected_prev hs
    × Numbered (start_scan a_client).height hs
    × (accepted 5 (headers entries) a_client ≡ accepted 5 hs a_client)
process_headers_sound_example =
    process_headers_sound first_bytes 5 (message entries ++ []) a_client
      (accepted 5 (headers entries) a_client) 2 taken

-- A message that announces two headers and ends after the first.
abbrev half : Bytes
half = 2 ∷ entry_bytes (first_header, none)

abbrev half_way : P2PClient
half_way = record a_client { tip_history = record_history first_header [] }

cut_off : process_headers first_bytes 5 half a_client ≡ (half_way, err bad_stream)
unfolding process_headers read_var_int read_var_int_tail apply_scan scan read_header read_full
    start_scan serialize_block_header put_le write_var_int has_aux_pow skip_aux_pow_if parse_header
    block_hash_chain advance get_le
cut_off = refl

process_headers_failed_example :
    ((d : ReadError) × (read_var_int half ≡ err d)
      × (bad_stream ≡ no_count)
      × (half_way ≡ a_client))
    ⊎ ((hs : List BlockHeader) × Faulty first_bytes half a_client half_way bad_stream hs)
process_headers_failed_example =
    process_headers_failed first_bytes 5 half a_client half_way bad_stream cut_off

history-HistoryFits_example : HistoryFits 2 (history (first_header ∷ second_header ∷ []) [])
history-HistoryFits_example =
    history-HistoryFits 0 (first_header ∷ second_header ∷ []) [] (refl, (refl, tt))
      (record { distinct = tt; bounded = tt; small = omega arith })
