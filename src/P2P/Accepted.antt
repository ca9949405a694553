-- ===== src/P2P/Accepted.antt =====
-- The client after an accepted chain of headers, described from the headers alone.
use doge_lucky_mining.Common.{
  ℕ, suc, ◌+◌, ◌≡◌, refl, ap, ◌∙◌, sym, Option, none, some, List, [], ◌∷◌, ◌++◌, arith, length,
  take, reverse,
}
use doge_lucky_mining.Bytes.{Bytes}
use doge_lucky_mining.Hex.{Text}
use doge_lucky_mining.Block.{BlockHeader}
use doge_lucky_mining.P2P.{P2PClient}
use doge_lucky_mining.P2P.LocatorLaws.{from_batch_lem}
use doge_lucky_mining.P2P.Locator.{prepend_locator_hashes_from_batch}
use doge_lucky_mining.P2P.Headers.{Scan, start_scan, advance, commit, record_history}
use doge_lucky_mining.P2P.Advance.{
  Numbered, advance_all, last_of, hashes, last_non_min, parent_time, last_header-advance_all,
  locator_batch-advance_all, carry-advance_all, parent_ts-advance_all,
}

abbrev pub history : List BlockHeader → List (ℕ × Text) → List (ℕ × Text)
history [] m = m
history (h ∷ hs) m = history hs (record_history h m)

abbrev pub with_tip : Option BlockHeader → ℕ → ℕ → ℕ → List Bytes → ℕ → P2PClient → P2PClient
with_tip best height bits parent ring now p = record p {
  best_header = best;
  best_height = height;
  last_non_min_difficulty_bits = bits;
  tip_parent_timestamp = parent;
  last_headers_applied_at = some now;
  locator_hashes = ring;
}

-- No header changes nothing. Else the last one is the tip, the height has grown by their number, the
-- locator ring holds the 24 newest hashes, and the two values for the next work are those of the chain.
unfoldable pub accepted : ℕ → List BlockHeader → P2PClient → P2PClient
accepted now [] p = p
accepted now (h ∷ hs) p =
    with_tip (last_of (h ∷ hs) none) ((start_scan p).height + length (h ∷ hs))
      (last_non_min p.last_non_min_difficulty_bits (h ∷ hs))
      (parent_time 0 (start_scan p).parent_ts (h ∷ hs))
      (take 24 (reverse (hashes (h ∷ hs)) ++ p.locator_hashes)) now
      (record p { tip_history = history (h ∷ hs) p.tip_history })

pub history-advance_all :
    (hs : List BlockHeader) (s : Scan) → (advance_all hs s).tip_history ≡ history hs s.tip_history
unfolding advance_all advance
history-advance_all [] s = refl
history-advance_all (h ∷ hs) s = history-advance_all hs (advance h s)

-- The last of numbered headers has the height that their number says.
last_of-Numbered :
    (n : ℕ) (h : BlockHeader) (hs : List BlockHeader)
    → Numbered n (h ∷ hs)
    → (l : BlockHeader) × (last_of hs (some h) ≡ some l) × (l.height ≡ n + suc (length hs))
last_of-Numbered n h [] k = (h, refl, omega arith)
last_of-Numbered n h (g ∷ hs) k =
    let (l, e, f) = last_of-Numbered (n + 1) g hs k.1 in (l, e, omega arith)

commit_lem :
    (now : ℕ) (s : Scan) (p : P2PClient) (l : BlockHeader)
    → s.last_header ≡ some l
    → commit now s p
      ≡ with_tip
          (some l)
          l.height
          s.carry_last_non_min
          s.parent_ts_for_tip
          (prepend_locator_hashes_from_batch s.locator_batch p.locator_hashes)
          now
          p
unfolding commit
commit_lem now s p l e = rw (e, commit)

with_tip_eq :
    (now : ℕ) (p : P2PClient) {best best' : Option BlockHeader}
    {height height' bits bits' parent parent' : ℕ} {ring ring' : List Bytes}
    {m m' : List (ℕ × Text)}
    → best ≡ best'
    → height ≡ height'
    → bits ≡ bits'
    → parent ≡ parent'
    → ring ≡ ring'
    → m ≡ m'
    → with_tip best height bits parent ring now (record p { tip_history = m })
      ≡ with_tip best' height' bits' parent' ring' now (record p { tip_history = m' })
with_tip_eq now p a b c d e f =
    λ i. with_tip (a i) (b i) (c i) (d i) (e i) now (record p { tip_history = f i })

pub commit-advance_all :
    (now : ℕ) (hs : List BlockHeader) (p : P2PClient)
    → Numbered (start_scan p).height hs
    → commit now
        (advance_all hs (start_scan p))
        (record p { tip_history = (advance_all hs (start_scan p)).tip_history })
      ≡ accepted now hs p
unfolding start_scan accepted
commit-advance_all now [] p n = unfold advance_all commit accepted start_scan in refl
commit-advance_all now (h ∷ hs) p n =
    let s = advance_all (h ∷ hs) (start_scan p) in
    let (l, last, height) = last_of-Numbered (start_scan p).height h hs n in
    let first : s.last_header ≡ some l = last_header-advance_all (h ∷ hs) (start_scan p) ∙ last in
    commit_lem now s (record p { tip_history = s.tip_history }) l first
    ∙ with_tip_eq now p (sym last) height (carry-advance_all (h ∷ hs) (start_scan p))
        (parent_ts-advance_all (h ∷ hs) (start_scan p))
        (ap (λ b. prepend_locator_hashes_from_batch b p.locator_hashes)
            (locator_batch-advance_all (h ∷ hs) (start_scan p))
          ∙ from_batch_lem h.hash (hashes hs) p.locator_hashes)
        (history-advance_all (h ∷ hs) (start_scan p))
