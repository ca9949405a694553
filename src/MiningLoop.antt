-- ===== src/MiningLoop.antt =====
-- main.go, the mining loop of a `Miner`: the tuning of the length of a round, the check of what a
-- search returns, its submission, and the statistics.
pub mod Cap
pub mod Solve
pub mod Resume
pub mod Submit
pub mod Counts
