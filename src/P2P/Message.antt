-- ===== src/P2P/Message.antt =====
-- The frame of a P2P message: `writeMessage`, `readMessage` and `disconnect` of p2p.go.
-- The bytes that have arrived on the connection are the input; where they end, the connection
-- reports an error, which is a timeout (or a deadline) or another one. What an unfinished read
-- consumed is lost. A write succeeds or fails as the connection decides. The digest of
-- `crypto/sha256` is the parameter `sha256`.
pub mod Laws
pub mod Sound
use doge_lucky_mining.Common.{
  ℕ, zero, suc, ◌+◌, ◌-◌, ◌*◌, ◌^◌, Bool, true, false, not, List, [], ◌∷◌, ◌++◌, length, take, drop,
  replicate, ltb, ◌==◌, if◌then◌else◌, bytes_equal, Result, ok, err,
}
use doge_lucky_mining.Bytes.{Bytes, put_le, get_le}
use doge_lucky_mining.Hex.{Text}
use doge_lucky_mining.P2P.{P2PClient}

-- The first peer with the address is taken off the list.
unfoldable pub remove_peer : Text → List Text → List Text
remove_peer addr [] = []
remove_peer addr (a ∷ peers) = if bytes_equal a addr then peers else a ∷ remove_peer addr peers

abbrev pub without : Text → List Text → List Text
without [] peers = peers
without (c ∷ addr) peers = remove_peer (c ∷ addr) peers

-- `disconnect`
unfoldable pub disconnect : P2PClient → P2PClient
disconnect p = record p {
  connected = false;
  peer_addr = if p.connected then [] else p.peer_addr;
  known_peers = without p.peer_addr p.known_peers;
}

-- `copy(hdr[4:16], []byte(command))`, after a command of more than 12 bytes was cut.
unfoldable pub command_field : Text → Bytes
command_field command = take 12 command ++ replicate (12 - length (take 12 command)) 0

-- `bytes.IndexByte(cmdBytes, 0)`: the bytes in front of the first zero.
unfoldable pub until_zero : Bytes → Text
until_zero [] = []
until_zero (b ∷ bs) = if b == 0 then [] else b ∷ until_zero bs

pub data MessageError : Type 0 where
  not_connected write_failed timed_out broken bad_magic too_large bad_checksum : MessageError

abbrev pub max_payload : ℕ
max_payload = 32 * 1024 * 1024

-- A read that met the end of what has arrived. Only a timeout leaves the connection.
unfoldable pub read_failed :
    Bool → P2PClient → P2PClient × Bytes × Result MessageError (Text × Bytes)
read_failed timeout p = if timeout then (p, [], err timed_out) else (disconnect p, [], err broken)

module _ (sha256 : Bytes → Bytes) where
  unfoldable pub checksum : Bytes → Bytes
  checksum payload = take 4 (sha256 (sha256 payload))

  unfoldable pub message_header : Bytes → Text → Bytes → Bytes
  message_header magic command payload =
      magic ++ (command_field command ++ (put_le 4 (length payload) ++ checksum payload))

  -- `writeMessage`: the client, and the bytes that went out. `header_sent` and `payload_sent` say
  -- whether the two writes succeed.
  unfoldable pub write_message :
      Bool → Bool → Text → Bytes → P2PClient → P2PClient × Result MessageError Bytes
  write_message header_sent payload_sent command payload p =
      if not p.connected
      then (p, err not_connected)
      else if not header_sent
      then (disconnect p, err write_failed)
      else if length payload == 0
      then (p, ok (message_header p.magic command payload))
      else if not payload_sent
      then (disconnect p, err write_failed)
      else (p, ok (message_header p.magic command payload ++ payload))

  -- What `readMessage` does with a payload and what follows it.
  unfoldable pub check_payload :
      Text
      → Bytes
      → Bytes
      → Bytes
      → P2PClient
      → P2PClient × Bytes × Result MessageError (Text × Bytes)
  check_payload command sum payload rest p =
      if bytes_equal sum (checksum payload)
      then (p, rest, ok (command, payload))
      else (disconnect p, rest, err bad_checksum)

  unfoldable pub read_payload :
      Bool → Bytes → Bytes → P2PClient → P2PClient × Bytes × Result MessageError (Text × Bytes)
  read_payload timeout header rest p =
      let size = get_le (take 4 (drop 16 header)) in
      if ltb max_payload size
      then (p, rest, err too_large)
      else if ltb (length rest) size
      then read_failed timeout p
      else check_payload (until_zero (take 12 (drop 4 header))) (take 4 (drop 20 header))
          (take size rest) (drop size rest) p

  -- `readMessage`: the client, the bytes that are left, and the command with its payload.
  unfoldable pub read_message :
      Bool → Bytes → P2PClient → P2PClient × Bytes × Result MessageError (Text × Bytes)
  read_message timeout input p =
      if ltb (length input) 24
      then read_failed timeout p
      else if not (bytes_equal (take 4 input) p.magic)
      then (disconnect p, drop 24 input, err bad_magic)
      else read_payload timeout (take 24 input) (drop 24 input) p
