-- ===== src/MiningLoop/Resume/RoundTrip.antt =====
-- A saved tip is where the next sync starts, and a failed validation leads back to genesis.
use doge_lucky_mining.Common.{
  ℕ, ◌≡◌, refl, ap, ◌∙◌, ◌⊎◌, inl, inr, Bool, true, false, ◌||◌, ◌&&◌, Option, none, some, [], ◌∷◌,
  arith, length, replicate, length-reverse, Bool-cases, bytes_equal, bytes_equal→eq, ◌==◌, ==_iff,
}
use doge_lucky_mining.Common.Int.{pos}
use doge_lucky_mining.Block.{BlockHeader}
use doge_lucky_mining.Template.Bits.{hex_to_32_bytes-display}
use doge_lucky_mining.HashCompare.{reverse_bytes_in_place, hex_to_32_bytes}
use doge_lucky_mining.HashCompare.Reverse.{reverse_bytes_in_place-eq-reverse}
use doge_lucky_mining.Hex.Laws.{length-encode}
use doge_lucky_mining.P2P.Checkpoint.{set_start_checkpoint, clear_start_checkpoint}
use doge_lucky_mining.P2P.Locator.{locator, first_locators, with_checkpoint, add_tip, or_genesis}
use doge_lucky_mining.P2P.LocatorLaws.{locator_start}
use doge_lucky_mining.P2P.Connect.{is_empty}
use doge_lucky_mining.Bytes.{Bytes, IsHash}
use doge_lucky_mining.Hex
use doge_lucky_mining.Hex.{Text, codes}
use doge_lucky_mining.P2P.{P2PClient, seed_last_non_min_difficulty_bits}
use doge_lucky_mining.MiningLoop.Resume.{
  SavedChainTip, Disk, read_tip, write_tip, valid_tip, load_saved_tip, clear_saved_tip, is_saved,
  save_tip, SyncConfig, start_at_saved, resume, SyncState, choose_start, dropped, recover,
  is_testnet,
}

read_tip-write_tip :
    (network : Text) (tip : Option SavedChainTip) (d : Disk)
    → read_tip network (write_tip network tip d) ≡ tip
unfolding read_tip write_tip
read_tip-write_tip network tip d = elim (Bool-cases (is_testnet network)) [
  | inl e ↦ rw e refl
  | inr e ↦ rw e refl
]

saved_eq :
    (height : ℕ) (hash : Text) (saved : Option (ℕ × Text × ℕ))
    → is_saved height hash saved ≡ true
    → (bits : ℕ) × (saved ≡ some (height, hash, bits))
unfolding is_saved
saved_eq height hash none h = elim (f h) [ ]
  where
    f : false ≡ true → ⊥
    f e = cc
saved_eq height hash (some (k, t, old)) h =
    let (same, text) = both (k == height) (bytes_equal t hash) h in
    (
      old,
      ap (λ n. some (n, t, old)) ((==_iff k height).0 same)
          ∙ ap (λ x. some (height, x, old)) (bytes_equal→eq t hash text),
    )
  where
    both : (a b : Bool) → (a && b) ≡ true → (a ≡ true) × (b ≡ true)
    both true true e = (refl, refl)
    both true false e = cc
    both false b e = cc

-- What was saved is loaded again; a tip that the file has already keeps its bits.
load_saved_tip-save_tip :
    (height bits : ℕ) (hash network : Text) (d : Disk)
    → length hash ≡ 64
    → (saved : ℕ) × (load_saved_tip network (save_tip height hash network bits d)
        ≡ some (height, hash, saved))
load_saved_tip-save_tip height bits hash network d l =
    elim (Bool-cases (is_saved height hash (load_saved_tip network d))) [
      | inl e ↦
          let (old, f) = saved_eq height hash (load_saved_tip network d) e in
          let kept : save_tip height hash network bits d ≡ d = unfold save_tip in rw e refl in
          (old, rw kept f)
      | inr e ↦
          let tip : SavedChainTip = record {
            height = pos height;
            hash_hex = hash;
            last_non_min_bits = bits;
          } in
          let written : save_tip height hash network bits d ≡ write_tip network (some tip) d =
            unfold save_tip in rw e refl in
          (
            bits,
            rw written (
                unfold load_saved_tip valid_tip in
                rw (read_tip-write_tip network (some tip) d, load_saved_tip) (rw l refl)),
          )
    ]

set_start_checkpoint_hash :
    (hash : Text) (h : Bytes) (height : ℕ) (p : P2PClient)
    → length hash ≡ 64
    → hex_to_32_bytes hash ≡ some h
    → (set_start_checkpoint hash height p).0
      ≡ record p { start_locator_hash = h; start_height = height; has_start_checkpoint = true }
unfolding set_start_checkpoint
set_start_checkpoint_hash [] h height p l e = absurd (omega arith)
set_start_checkpoint_hash (c ∷ cs) h height p l e = rw (e, set_start_checkpoint) refl

-- The heights that stand for a checkpoint of the program.
unfoldable pub is_checkpoint : Text → ℕ → Bool
is_checkpoint network height =
    height == 0 || is_testnet network && (height == 38150909 || height == 42799352)

start_at_saved_ordinary :
    (network : Text) (height : ℕ) (hash : Text) (p : P2PClient)
    → is_checkpoint network height ≡ false
    → start_at_saved network height hash p ≡ (set_start_checkpoint hash height p).0
unfolding start_at_saved is_checkpoint
start_at_saved_ordinary network height hash p h = ground arith

seed_keeps :
    (bits : ℕ) (p : P2PClient)
    → (locator (seed_last_non_min_difficulty_bits bits p) ≡ locator p)
      × ((seed_last_non_min_difficulty_bits bits p).start_height ≡ p.start_height)
unfolding seed_last_non_min_difficulty_bits locator first_locators with_checkpoint
seed_keeps bits p = elim (Bool-cases (bits == 0)) [
  | inl e ↦ rw e (refl, refl)
  | inr e ↦ rw e (refl, refl)
]

chosen :
    (c : SyncConfig) (s : SyncState)
    → c.p2p_checkpoint ≡ []
    → s.force_genesis_next ≡ false
    → (choose_start c s).client ≡ resume c.network (load_saved_tip c.network s.disk) s.client
unfolding choose_start is_empty
chosen c s e f = rw (e, f) refl

resumed :
    (network : Text) (height bits : ℕ) (hash : Text) (p : P2PClient)
    → resume network (some (height, hash, bits)) p
      ≡ seed_last_non_min_difficulty_bits bits (start_at_saved network height hash p)
unfolding resume
resumed network height bits hash p = refl

-- A tip that was saved is where the sync of the next start begins, when no checkpoint is chosen, genesis is not
-- forced, nothing is synced yet and the height is none that stands for a checkpoint of the program: the first request
-- asks for what follows the hash of the tip, and the height of the start is that of the tip.
pub choose_start-save_tip :
    (c : SyncConfig) (s : SyncState) (tip : BlockHeader) (bits : ℕ) (d : Disk)
    → IsHash tip.hash
    → c.p2p_checkpoint ≡ []
    → s.force_genesis_next ≡ false
    → s.client.best_header ≡ none
    → s.client.locator_hashes ≡ []
    → is_checkpoint c.network tip.height ≡ false
    → s.disk ≡ save_tip tip.height (Hex.encode (reverse_bytes_in_place tip.hash)) c.network bits d
    → (locator (choose_start c s).client ≡ tip.hash ∷ [])
      × ((choose_start c s).client.start_height ≡ tip.height)
choose_start-save_tip c s tip bits d h no_checkpoint calm fresh empty ordinary saved =
    let t = Hex.encode (reverse_bytes_in_place tip.hash) in
    let long : length t ≡ 64 = omega (
      arith,
      length-encode (reverse_bytes_in_place tip.hash),
      ap length (reverse_bytes_in_place-eq-reverse tip.hash),
      length-reverse tip.hash,
      h.0,
    ) in
    let (old, loaded) = load_saved_tip-save_tip tip.height bits t c.network d long in
    let q : P2PClient = record s.client {
      start_locator_hash = tip.hash;
      start_height = tip.height;
      has_start_checkpoint = true;
    } in
    let client : (choose_start c s).client ≡ seed_last_non_min_difficulty_bits old q =
      chosen c s no_checkpoint calm
      ∙ ap (λ x. resume c.network (load_saved_tip c.network x) s.client) saved
      ∙ ap (λ x. resume c.network x s.client) loaded
      ∙ resumed c.network tip.height old t s.client
      ∙ ap (seed_last_non_min_difficulty_bits old) (
          start_at_saved_ordinary c.network tip.height t s.client ordinary
          ∙ set_start_checkpoint_hash t tip.hash tip.height s.client long
              (hex_to_32_bytes-display tip.hash h)) in
    rw client ((seed_keeps old q).0 ∙ locator_start q fresh empty refl, (seed_keeps old q).1)

recovered :
    (now success_count : ℕ) (c : SyncConfig) (s : SyncState)
    → (c.p2p_checkpoint ≡ []) ⊎ (c.p2p_checkpoint ≡ codes "0")
    → recover now success_count c s ≡ record {
      force_genesis_next = true;
      disk = clear_saved_tip c.network s.disk;
      client = (set_start_checkpoint [] 0 (dropped now success_count s.client)).0;
    }
unfolding recover is_empty
recovered now success_count c s (inl e) = rw e refl
recovered now success_count c s (inr e) = rw e refl

cleared_tip :
    (network : Text) (d : Disk) → load_saved_tip network (clear_saved_tip network d) ≡ none
unfolding clear_saved_tip load_saved_tip
cleared_tip network d = rw (read_tip-write_tip network none d, load_saved_tip) refl

-- After a chain that did not validate, with no checkpoint chosen or that of genesis, the next start
-- syncs from genesis: no tip is saved, the client has no tip, no start checkpoint and no hashes for a locator, and genesis is
-- forced only once.
pub choose_start-recover :
    (now success_count : ℕ) (c : SyncConfig) (s : SyncState)
    → (c.p2p_checkpoint ≡ []) ⊎ (c.p2p_checkpoint ≡ codes "0")
    → (load_saved_tip c.network (choose_start c (recover now success_count c s)).disk ≡ none)
      × ((choose_start c (recover now success_count c s)).force_genesis_next ≡ false)
      × ((choose_start c (recover now success_count c s)).client.best_header ≡ none)
      × (locator (choose_start c (recover now success_count c s)).client ≡ replicate 32 0 ∷ [])
unfolding choose_start
choose_start-recover now success_count c s checkpoint =
    rw (recovered now success_count c s checkpoint) (
      cleared_tip c.network (clear_saved_tip c.network s.disk),
      refl,
      (unfold set_start_checkpoint clear_start_checkpoint in refl),
      (unfold set_start_checkpoint clear_start_checkpoint locator first_locators add_tip
            with_checkpoint or_genesis in
          refl),
    )
