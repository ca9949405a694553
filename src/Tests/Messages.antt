-- ===== src/Tests/Messages.antt =====
-- Message frames at concrete inputs.
use doge_lucky_mining.Common.{◌≡◌, refl, arith, true, [], ◌∷◌, ◌++◌, ok, replicate}
use doge_lucky_mining.Bytes.{Bytes, get_le}
use doge_lucky_mining.Hex.{codes}
use doge_lucky_mining.P2P.{P2PClient}
use doge_lucky_mining.P2P.Message.{
  read_message, write_message, read_payload, check_payload, checksum, until_zero,
}
use doge_lucky_mining.P2P.Message.Laws.{read_message-write_message}
use doge_lucky_mining.P2P.Message.Sound.{Framed, read_message-Framed}
use doge_lucky_mining.Tests.Data.{a_client}

abbrev connected : P2PClient
connected = record a_client { connected = true; peer_addr = codes "1.2.3.4:22556" }

-- A digest whose bytes are all zero.
abbrev zero_digest : Bytes → Bytes
zero_digest x = replicate 32 0

read_message-write_message_example :
    (sent : Bytes) × (write_message zero_digest true true (codes "ping") (1 ∷ 2 ∷ []) connected
      ≡ (connected, ok sent))
    × (read_message zero_digest true (sent ++ (9 ∷ [])) connected
        ≡ (connected, 9 ∷ [], ok (codes "ping", 1 ∷ 2 ∷ [])))
read_message-write_message_example =
    read_message-write_message zero_digest true connected (codes "ping") (1 ∷ 2 ∷ []) (9 ∷ [])
      (λ x. refl) refl refl (omega arith) (omega arith) (omega arith)

abbrev verack : Bytes
verack =
    0xc0 ∷ 0xc0 ∷ 0xc0 ∷ 0xc0 ∷ (codes "verack" ++ (replicate 10 0 ++ (0 ∷ 0 ∷ 0 ∷ 0 ∷ 9 ∷ [])))

verack_read :
    read_message zero_digest true verack connected ≡ (connected, 9 ∷ [], ok (codes "verack", []))
unfolding read_message read_payload check_payload checksum until_zero get_le
verack_read = refl

read_message-Framed_example :
    Framed zero_digest connected.magic verack (codes "verack") [] (9 ∷ []) × (connected ≡ connected)
read_message-Framed_example =
    read_message-Framed zero_digest true connected connected verack (codes "verack") [] (9 ∷ [])
      verack_read
