-- ===== src/App.antt =====
-- The application around the mining loop: `Start` and `Stop` of a `Miner`, the locks that its parts
-- share, and its configuration (main.go, headers.go, miner_optimizer.go).
pub mod Lifecycle
pub mod Locks
pub mod Config
