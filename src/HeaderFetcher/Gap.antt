-- ===== src/HeaderFetcher/Gap.antt =====
-- A height that fails once is passed over for good.

use doge_lucky_mining.Common.{ℕ, Option, List, [], ◌∷◌}
use doge_lucky_mining.Block.{BlockHeader}
use doge_lucky_mining.HeaderFetcher.{HeaderFetcher, fetch_round}

-- Rounds with nodes and counts of their own.
abbrev pub all_rounds : List ((ℕ → Option BlockHeader) × ℕ) → HeaderFetcher → HeaderFetcher
all_rounds [] f = f
all_rounds ((fetch, count) ∷ later) f = all_rounds later (fetch_round fetch count f)
