-- ===== src/P2P/Handshake/Lost.antt =====
-- `tryConnect` with a peer that closes the connection right after the handshake.
use doge_lucky_mining.Common.{ℕ, ◌-◌, true}
use doge_lucky_mining.Bytes.{Bytes}
use doge_lucky_mining.Hex.{Text}
use doge_lucky_mining.P2P.{P2PClient}
use doge_lucky_mining.P2P.Handshake.{Conn}

-- The client with a new connection.
abbrev at : P2PClient → Text → P2PClient
at p addr = record p { connected = true; peer_addr = addr }

abbrev spend : ℕ → Conn → Conn
spend n w = record w { writes = w.writes - n }
