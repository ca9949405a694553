-- ===== src/P2P/Relay/Inv.antt =====
-- What `parseInvForBlock` finds in an inventory.
use doge_lucky_mining.Common.{
  ℕ, ◌^◌, ◌<◌, ◌≡◌, Bool, false, ◌&&◌, ◌||◌, List, [], ◌∷◌, ◌++◌, length, bytes_equal,
}
use doge_lucky_mining.Bytes.{Bytes, put_le}
use doge_lucky_mining.P2P.Relay.{is_block_type}

-- An entry of an inventory: its type and its hash.
abbrev pub Item : Type 0
Item = ℕ × Bytes

abbrev pub ItemFits : Item → Type 0
ItemFits (t, hash) = (t < 2 ^ 32) × (length hash ≡ 32)

-- The entries of an inventory on the wire, and what comes after.
abbrev pub items_bytes : List Item → Bytes → Bytes
items_bytes [] rest = rest
items_bytes ((t, hash) ∷ items) rest = put_le 4 t ++ (hash ++ items_bytes items rest)

-- Whether an inventory has the hash of a block.
abbrev pub announces : Bytes → List Item → Bool
announces expected [] = false
announces expected ((t, hash) ∷ items) =
    is_block_type t && bytes_equal hash expected || announces expected items
