-- ===== src/P2P/Handshake.antt =====
-- p2p.go: `handshake` with `sendVersion`, and `tryConnect`.
-- A dialled connection is what the peer sends on it, how the end of that is reported, how many writes
-- succeed, and how many tests of the clock come before each of the two deadlines. What the peer
-- says about itself, which only the web interface shows, and the cache file are left out.
pub mod Lost
use doge_lucky_mining.Common.{
  ℕ, zero, suc, ◌+◌, ◌-◌, Bool, true, false, Option, none, some, List, [], ◌∷◌, ◌++◌, Result, ok,
  err, length, replicate, reverse, ltb, ◌==◌, if◌then◌else◌, bytes_equal,
}
use doge_lucky_mining.Bytes.{Bytes, put_le}
use doge_lucky_mining.Hex.{Text, codes}
use doge_lucky_mining.Wire.{write_var_int}
use doge_lucky_mining.P2P.{P2PClient}
use doge_lucky_mining.P2P.Message.{read_message, write_message}

pub record Conn : Type 0 where
  pub input : Bytes
  pub timeout : Bool
  pub writes : ℕ
  pub ticks : ℕ
  pub drain_ticks : ℕ

-- What `sendVersion` sends, for the clock's seconds and a random number.
unfoldable pub version_payload : ℕ → ℕ → ℕ → Bytes
version_payload port now nonce =
    put_le 4 70015
    ++ put_le 8 1
    ++ put_le 8 now
    ++ put_le 8 1
    ++ replicate 16 0
    ++ reverse (put_le 2 port)
    ++ put_le 8 1
    ++ replicate 16 0
    ++ reverse (put_le 2 0)
    ++ put_le 8 nonce
    ++ write_var_int (length (codes "/DogeLuckyMining:0.1.0/"))
    ++ codes "/DogeLuckyMining:0.1.0/"
    ++ put_le 4 0
    ++ (1 ∷ [])

-- What a message of the handshake leads to.
pub data Reply : Type 0 where
  complete waiting failed : Reply

-- How `handshake` ends. A read on a connection that is nil panics.
pub data Shaken : Type 0 where
  shaken refused panicked : Shaken

module _ (sha256 : Bytes → Bytes) where
  -- `writeMessage` on the connection, and whether it gave no error.
  unfoldable pub send : Text → Bytes → Conn → P2PClient → Conn × P2PClient × Bool
  send command payload w p =
      let (p', out) = write_message sha256 (ltb 0 w.writes) (ltb 1 w.writes) command payload p in
      elim out [
        | ok sent ↦
            (record w { writes = w.writes - (if length payload == 0 then 1 else 2) }, p', true)
        | err e ↦ (record w { writes = 0 }, p', false)
      ]

  reply_of : Reply → Conn × P2PClient × Bool → Conn × P2PClient × Reply
  reply_of done (w, p, true) = (w, p, done)
  reply_of done (w, p, false) = (w, p, failed)

  -- The switch of `handshake` over a message's command.
  unfoldable pub reply : Text → Bytes → Conn → P2PClient → Conn × P2PClient × Reply
  unfolding reply_of
  reply command payload w p =
      if bytes_equal command (codes "version")
      then reply_of waiting (send (codes "verack") [] w p)
      else if bytes_equal command (codes "verack")
      then (w, p, complete)
      else if bytes_equal command (codes "ping")
      then reply_of waiting (send (codes "pong") payload w p)
      else (w, p, waiting)

  -- The loop up to `verack`, with the tests of the clock that are left.
  unfoldable pub await : ℕ → Conn → P2PClient → Conn × P2PClient × Bool
  await zero w p = (w, p, false)
  await (suc ticks) w p =
      let (p', rest, message) = read_message sha256 w.timeout w.input p in
      elim message [
        | err e ↦ (record w { input = rest }, p', false)
        | ok (command, payload) ↦
            let (w', p'', next) = reply command payload (record w { input = rest }) p' in
            elim next [
              | complete ↦ (w', p'', true)
              | waiting ↦ await ticks w' p''
              | failed ↦ (w', p'', false)
            ]
      ]

  pong_if : Text → Bytes → Conn → P2PClient → Conn × P2PClient × Bool
  pong_if command payload w p =
      if bytes_equal command (codes "ping") then send (codes "pong") payload w p else (w, p, true)

  -- The loop that drains the connection: it ends after a failed read, or after 11 messages.
  unfoldable pub drain : ℕ → ℕ → Conn → P2PClient → P2PClient × Shaken
  unfolding pong_if
  drain zero count w p = (p, shaken)
  drain (suc ticks) count w p = elim p.connected [
    | false ↦ (p, panicked)
    | true ↦
        let (p', rest, message) = read_message sha256 w.timeout w.input p in
        elim message [
          | err e ↦ (p', shaken)
          | ok (command, payload) ↦
              let (w', p'', sent) = pong_if command payload (record w { input = rest }) p' in
              elim (ltb 10 (count + 1)) [
                | true ↦ (p'', shaken)
                | false ↦ drain ticks (count + 1) w' p''
              ]
        ]
  ]

  drain_if : Conn × P2PClient × Bool → P2PClient × Shaken
  drain_if (w, p, true) = drain w.drain_ticks 0 w p
  drain_if (w, p, false) = (p, refused)

  send_headers_if : Conn × P2PClient × Bool → P2PClient × Shaken
  unfolding drain_if
  send_headers_if (w, p, true) = drain_if (send (codes "sendheaders") [] w p)
  send_headers_if (w, p, false) = (p, refused)

  await_if : Conn × P2PClient × Bool → P2PClient × Shaken
  unfolding send_headers_if
  await_if (w, p, true) = send_headers_if (await w.ticks w p)
  await_if (w, p, false) = (p, refused)

  unfoldable pub handshake : ℕ → ℕ → Conn → P2PClient → P2PClient × Shaken
  unfolding await_if
  handshake now nonce w p = await_if (send (codes "version") (version_payload p.port now nonce) w p)

  unfoldable closed : P2PClient × Shaken → P2PClient × Shaken
  closed (p, shaken) = (p, shaken)
  closed (p, refused) = (record p { connected = false; peer_addr = [] }, refused)
  closed (p, panicked) = (p, panicked)

  -- `tryConnect`, for what dialling gives: the peer's address with the connection, or an error.
  unfoldable pub try_connect : ℕ → ℕ → Option (Text × Conn) → P2PClient → P2PClient × Shaken
  unfolding closed
  try_connect now nonce none p = (p, refused)
  try_connect now nonce (some (addr, w)) p =
      closed (handshake now nonce w (record p { connected = true; peer_addr = addr }))
