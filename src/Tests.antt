-- ===== src/Tests.antt =====
-- The theorems of the other modules applied at concrete inputs, with the data that these take.
mod Data
mod Codec
mod Targets
mod Chain
mod Miner
mod Messages
mod Peers
mod Sync
mod Relay
mod Payments
mod Search
mod Loop
mod Rounds
mod Fetcher
mod App
