-- ===== src/Lib.antt =====
-- DogeLuckyMining: a solo miner for Dogecoin that follows the chain over the P2P protocol.
--
-- The program keeps the tip of the chain by header sync (p2p.go), computes the target of the next
-- block from it (pow_dogecoin.go, template_builder.go), makes a block with one transaction that pays
-- to the configured address (main.go, address.go), searches for a nonce whose scrypt hash is at most
-- the target (scrypt.go, hash_compare.go), sends the block in its wire form (block.go), and watches
-- the history of the chain for its own blocks (payment_monitor_p2p.go).
--
-- Which file models what:
--   Common      tests, lists over the native numbers, results, signed integers
--   Bytes       byte strings and encoding/binary
--   Wire        writeVarInt (block.go), readVarInt, readString, readVarStr (p2p.go) over a reader
--   Hex         encoding/hex as the program uses it
--   HashCompare hash_compare.go, hexTo32Bytes (block.go), reverseBytes (scrypt.go)
--   Block       the types and Serialize methods of block.go and headers.go; Block.Skip is
--               skipTransaction and skipAuxPow (p2p.go)
--   Compact     BitsToTarget (template_builder.go), BigToCompact (pow_dogecoin.go)
--   Difficulty  GetNextWorkRequiredExtended and DigiShield (pow_dogecoin.go)
--   P2P         the state of P2PClient (p2p.go); P2P.Checkpoint its start checkpoint, P2P.Locator the
--               getheaders locator, P2P.Headers processHeaders, P2P.Message writeMessage, readMessage
--               and disconnect, P2P.Peers the bad peers, P2P.Cache the cache of peers, P2P.Handshake
--               handshake and tryConnect, P2P.Connect ensureConnected, P2P.Request requestHeaders,
--               P2P.Relay the payloads that are read while a block is relayed
--   Address     address.go
--   Template    BuildTemplateFromHeader (template_builder.go) and createEmptyBlock (main.go)
--   Mining      MineBlock and mineWithStrategy (scrypt.go), verifyBlockPoW (main.go);
--               Mining.Worker is a goroutine of mineParallel, Mining.Parallel mineParallel itself
--   Monitor     payment_monitor_p2p.go
--   MiningLoop  the mining loop (main.go): MiningLoop.Cap tunes the length of a round on testnet,
--               MiningLoop.Solve checks what a search returns, MiningLoop.Submit is submitBlock and the
--               books of the submissions, MiningLoop.Counts the hash counts, MiningLoop.Resume the
--               saved tip and the start of sync
--   Rpc         rpc.go over a node's answers, Rpc.Header ParseBlockHeaderFromRPC (headers.go)
--   HeaderFetcher  the fetcher of headers.go
--   Optimizer   miner_optimizer.go
--   App         App.Lifecycle is Start and Stop (main.go, headers.go, miner_optimizer.go), App.Locks two
--               locks that GetStats and applyProfile share, App.Config the configuration (main.go)
--   Tests       theorems at concrete inputs
--
-- How the parts meet: P2P, or a node through Rpc, gives the tip, its bits and times to Template; Template
-- gives the block and its target as text to Mining; Mining gives the nonce and the hash to MiningLoop,
-- which checks the hash once more and submits the block with the check of its own that precedes a
-- submission; Monitor gets the text of the hash and looks up the hashes that header sync
-- recorded in the client. Optimizer and App change the settings that Mining reads.
--
-- Conventions: integers are native natural numbers with their wrap-around written out, a signed
-- field is its bit pattern where the code only copies, masks or compares it, and heights are not
-- negative; a nil pointer is an Option; an error is a value, a panic a value of its own. The functions
-- of crypto/sha256 and golang.org/x/crypto/scrypt are parameters of the definitions that use them.
-- Clocks, random numbers, the outcome of a write and what dialling gives are arguments; a loop that
-- asks the clock recurs on the tests that come before its deadline, and the loop that looks for a
-- peer on the list of the answers of its rounds, after which it is still running. Goroutines are interleaved by a
-- schedule, the list of the threads in the order of their steps; a schedule that ends early leaves
-- the search running. Loops over a count recur on the count, loops over bytes on the bytes. The
-- digits of a number are taken with the number as fuel, which is enough since every step divides by
-- 256.
--
-- float64 is a type with the operations that are used. HTTP and JSON are what a node sends back and a
-- function that reads it. The answer of the peers to a broadcast is an argument of a submission.
--
-- Not modelled: sockets, timeouts and logging, and locks but the one of the search for a peer and the two
-- of App.Locks; the background loops, the questions to the seeds and the broadcast of p2p.go; the
-- GPU miner (OpenCL); the web interface and main.
pub mod Common
pub mod Bytes
pub mod Wire
pub mod Hex
pub mod HashCompare
pub mod Block
pub mod Compact
pub mod Difficulty
pub mod P2P
pub mod Rpc
pub mod HeaderFetcher
pub mod Monitor
pub mod Mining
pub mod MiningLoop
pub mod Optimizer
pub mod App
pub mod Address
pub mod Template
pub mod Tests
