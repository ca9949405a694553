-- ===== src/Tests/Relay.antt =====
-- An inventory at a concrete payload.
use doge_lucky_mining.Common.{List, [], ◌∷◌}
use doge_lucky_mining.P2P.Relay.Inv.{Item}
use doge_lucky_mining.Tests.Data.{hash_of}

-- A transaction with the hash that is looked for, another block, and a compact block with the hash.
abbrev items : List Item
items = (1, hash_of 5) ∷ (2, hash_of 6) ∷ (4, hash_of 5) ∷ []
