-- ===== src/P2P/Advance.antt =====
-- A chain of headers, and what the rounds of the loop of `processHeaders` make of one.
use doge_lucky_mining.Common.{
  ℕ, ◌+◌, ◌≡◌, refl, sym, ◌∙◌, Option, some, List, [], ◌∷◌, ◌++◌, arith, length, append_assoc,
  append-nil, ◌==◌, if◌then◌else◌,
}
use doge_lucky_mining.Bytes.{Bytes}
use doge_lucky_mining.Block.{BlockHeader}
use doge_lucky_mining.Compact.{doge_pow_limit_compact}
use doge_lucky_mining.P2P.Headers.{Scan, advance}

-- Each header names the hash of the one before it; `prev` is what the first names.
abbrev pub Linked : Bytes → List BlockHeader → Type 0
Linked prev [] = Unit
Linked prev (h ∷ hs) = (h.prev_block ≡ prev) × Linked h.hash hs

-- Heights count up from `n + 1`.
abbrev pub Numbered : ℕ → List BlockHeader → Type 0
Numbered n [] = Unit
Numbered n (h ∷ hs) = (h.height ≡ n + 1) × Numbered (n + 1) hs

-- The rounds of the loop on headers that link.
unfoldable pub advance_all : List BlockHeader → Scan → Scan
advance_all [] s = s
advance_all (h ∷ hs) s = advance_all hs (advance h s)

-- What `advance_all` leaves in the loop's variables, described from the headers alone.
abbrev pub last_of : List BlockHeader → Option BlockHeader → Option BlockHeader
last_of [] d = d
last_of (h ∷ hs) d = last_of hs (some h)

pub last_header-advance_all :
    (hs : List BlockHeader) (s : Scan) → (advance_all hs s).last_header ≡ last_of hs s.last_header
unfolding advance_all advance
last_header-advance_all [] s = refl
last_header-advance_all (h ∷ hs) s = last_header-advance_all hs (advance h s)

pub height-advance_all :
    (hs : List BlockHeader) (s : Scan)
    → Numbered s.height hs
    → (advance_all hs s).height ≡ s.height + length hs
unfolding advance_all advance
height-advance_all [] s n = omega arith
height-advance_all (h ∷ hs) s n =
    omega (arith, height-advance_all hs (advance h s) (rw (n.0) n.1), n.0)

abbrev pub hashes : List BlockHeader → List Bytes
hashes [] = []
hashes (h ∷ hs) = h.hash ∷ hashes hs

pub locator_batch-advance_all :
    (hs : List BlockHeader) (s : Scan)
    → (advance_all hs s).locator_batch ≡ s.locator_batch ++ hashes hs
unfolding advance_all advance
locator_batch-advance_all [] s = sym (append-nil s.locator_batch)
locator_batch-advance_all (h ∷ hs) s =
    locator_batch-advance_all hs (advance h s)
    ∙ append_assoc s.locator_batch (h.hash ∷ []) (hashes hs)

-- The bits of the last header that is not at the proof-of-work limit.
abbrev pub last_non_min : ℕ → List BlockHeader → ℕ
last_non_min d [] = d
last_non_min d (h ∷ hs) = last_non_min (if h.bits == doge_pow_limit_compact then d else h.bits) hs

pub carry-advance_all :
    (hs : List BlockHeader) (s : Scan)
    → (advance_all hs s).carry_last_non_min ≡ last_non_min s.carry_last_non_min hs
unfolding advance_all advance
carry-advance_all [] s = refl
carry-advance_all (h ∷ hs) s = carry-advance_all hs (advance h s)

-- The time of the block before the last.
abbrev pub parent_time : ℕ → ℕ → List BlockHeader → ℕ
parent_time before last [] = before
parent_time before last (h ∷ hs) = parent_time last h.timestamp hs

pub parent_ts-advance_all :
    (hs : List BlockHeader) (s : Scan)
    → (advance_all hs s).parent_ts_for_tip ≡ parent_time s.parent_ts_for_tip s.parent_ts hs
unfolding advance_all advance
parent_ts-advance_all [] s = refl
parent_ts-advance_all (h ∷ hs) s = parent_ts-advance_all hs (advance h s)
