-- ===== src/MiningLoop/Submit/Laws.antt =====
-- What a submission means, and the books that the loop keeps of its submissions.
use doge_lucky_mining.Common.{◌≤◌, ◌≡◌, true, false, Option, none, some, length, All}
use doge_lucky_mining.Bytes.{Bytes}
use doge_lucky_mining.Block.{Block}
use doge_lucky_mining.MiningLoop.Submit.{SubmittedBlock, Miner}

-- A submission without an error counts as relayed, and one with an error has no peers.
pub Fits : SubmittedBlock → Type 0
Fits s = elim s.error_message [
  | none ↦ s.broadcast_ok ≡ true
  | some e ↦ (s.broadcast_ok ≡ false) × (s.peer_count ≡ 0)
]

pub record IsKept (m : Miner) : Type 0 where
  pub accepted : m.stats.blocks_found ≡ m.stats.blocks_accepted
  pub at_most_100 : length m.submitted_blocks ≤ 100
  pub fits : All Fits m.submitted_blocks

-- What holds of the state that a round ends with, if it does not panic.
pub IsKeptOr : Option Miner → Type 0
IsKeptOr none = Unit
IsKeptOr (some m) = IsKept m
