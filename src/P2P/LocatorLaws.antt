-- ===== src/P2P/LocatorLaws.antt =====
-- The locator ring after a batch, and the locator that is sent.
use doge_lucky_mining.Common.{
  none, true, ℕ, zero, suc, ◌≤◌, ◌≡◌, refl, ap, sym, false, inl, inr, List, [], ◌∷◌, ◌++◌, arith,
  length, take, take_all, reverse, reverse-append, append_assoc, ltb, Bool-cases,
}
use doge_lucky_mining.Bytes.{Bytes}
use doge_lucky_mining.P2P.{P2PClient}
use doge_lucky_mining.P2P.Locator.{
  locator, first_locators, with_checkpoint, add_tip, or_genesis, add_locator, is_in,
  prepend_locator, prepend_locator_hashes_from_batch,
}

take-take-suc : (n : ℕ) (xs : List Bytes) → take n (take (suc n) xs) ≡ take n xs
take-take-suc zero xs = refl
take-take-suc (suc n) [] = refl
take-take-suc (suc n) (x ∷ xs) = ap (λ t. x ∷ t) (take-take-suc n xs)

prepend_locator_lem : (h : Bytes) (ring : List Bytes) → prepend_locator h ring ≡ take 24 (h ∷ ring)
unfolding prepend_locator
prepend_locator_lem h ring = elim (Bool-cases (ltb 24 (length (h ∷ ring)))) [
  | inl e ↦ rw e
  | inr e ↦ rw e (ap (λ t. h ∷ t) (sym (take_all ring 23 (short (length ring) e))))
]
  where
    short : (n : ℕ) → ltb 24 (suc n) ≡ false → n ≤ 23
    short n h = ground arith

reverse_cons :
    (h : Bytes) (batch ring : List Bytes)
    → reverse (h ∷ batch) ++ ring ≡ reverse batch ++ (h ∷ ring)
reverse_cons h batch ring = rw (reverse-append (h ∷ []) batch, append_assoc)

from_batch_take :
    (batch ring : List Bytes)
    → prepend_locator_hashes_from_batch batch (take 24 ring) ≡ take 24 (reverse batch ++ ring)
unfolding prepend_locator_hashes_from_batch
from_batch_take [] ring = refl
from_batch_take (h ∷ batch) ring =
    rw (prepend_locator_lem h (take 24 ring), reverse_cons h batch ring)
      (rw (take-take-suc 23 ring) (from_batch_take batch (h ∷ ring)))

-- A batch that is not empty leaves the 24 newest hashes, the newest first.
pub from_batch_lem :
    (h : Bytes) (batch ring : List Bytes)
    → prepend_locator_hashes_from_batch (h ∷ batch) ring ≡ take 24 (reverse (h ∷ batch) ++ ring)
unfolding prepend_locator_hashes_from_batch
from_batch_lem h batch ring =
    rw (prepend_locator_lem h ring, reverse_cons h batch ring) (from_batch_take batch (h ∷ ring))

-- A client with nothing synced asks from its start checkpoint.
pub locator_start :
    (p : P2PClient)
    → p.best_header ≡ none
    → p.locator_hashes ≡ []
    → p.has_start_checkpoint ≡ true
    → locator p ≡ p.start_locator_hash ∷ []
unfolding locator first_locators with_checkpoint add_tip or_genesis add_locator is_in
locator_start p e f h = rw (f, first_locators) (rw (e, h) refl)
