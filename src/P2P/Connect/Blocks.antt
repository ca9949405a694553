-- ===== src/P2P/Connect/Blocks.antt =====
-- `ensureConnected` waits for a mutex that it holds itself.
use doge_lucky_mining.Common.{
  ◌≤◌, ◌≡◌, ◌≢◌, refl, ◌∙◌, ap, arith, true, false, none, List, [], ◌∷◌, length, ltb, Bool-cases,
  inl, inr, All,
}
use doge_lucky_mining.Bytes.{Bytes}
use doge_lucky_mining.Hex.{Text}
use doge_lucky_mining.P2P.{P2PClient}
use doge_lucky_mining.P2P.Peers.{mark_bad_peer}
use doge_lucky_mining.P2P.Cache.{success_count_of}
use doge_lucky_mining.P2P.Handshake.{refused, try_connect}
use doge_lucky_mining.P2P.Connect.{
  Round, blocked, connect_loop, from_known, ensure_connected, is_empty,
}

-- Dialling a known peer gives an error.
abbrev pub NoPeer : Round → Type 0
NoPeer r = r.dial ≡ none

cons_of : (xs : List Text) → xs ≢ [] → (x : Text) × (ys : List Text) × (xs ≡ x ∷ ys)
cons_of [] some_known = elim (some_known refl) [ ]
cons_of (x ∷ xs) some_known = (x, xs, refl)

module _ (sha256 : Bytes → Bytes) where
  locked_blocks :
      (rounds : List Round) (p : P2PClient) → (connect_loop sha256 rounds true p).1 ≡ blocked
  unfolding connect_loop
  locked_blocks [] p = refl
  locked_blocks (r ∷ rounds) p = refl

  after_failure : Round → Text → List Text → P2PClient → P2PClient
  after_failure r addr peers p =
      mark_bad_peer r.now (success_count_of addr r.cache) addr (record p { known_peers = peers })

  dial_refused :
      (r : Round) (p : P2PClient)
      → NoPeer r
      → try_connect sha256 r.now r.nonce r.dial p ≡ (p, refused)
  unfolding try_connect
  dial_refused r p refuses = rw (refuses, try_connect) refl

  failed_round :
      (r : Round) (rounds : List Round) (p : P2PClient) (addr : Text) (peers : List Text)
      → p.known_peers ≡ addr ∷ peers
      → NoPeer r
      → connect_loop sha256 (r ∷ rounds) false p
        ≡ connect_loop sha256 rounds (ltb (length peers) 3) (after_failure r addr peers p)
  unfolding connect_loop after_failure mark_bad_peer
  failed_round r rounds p addr peers e refuses =
      simp (connect_loop, e, dial_refused r (record p { known_peers = peers }) refuses)

  loop_blocks :
      (rounds : List Round) (p : P2PClient) (addr : Text) (peers : List Text)
      → p.known_peers ≡ addr ∷ peers
      → All NoPeer rounds
      → length (addr ∷ peers) ≤ length rounds
      → (connect_loop sha256 rounds false p).1 ≡ blocked
  unfolding after_failure mark_bad_peer
  loop_blocks [] p addr peers e refuse enough = ground arith
  loop_blocks (r ∷ rounds) p addr [] e (refuses, refuse) enough =
      ap (λ x. x.1) (failed_round r rounds p addr [] e refuses)
      ∙ locked_blocks rounds (after_failure r addr [] p)
  loop_blocks (r ∷ rounds) p addr (next ∷ peers) e (refuses, refuse) enough =
      ap (λ x. x.1) (failed_round r rounds p addr (next ∷ peers) e refuses)
      ∙ elim (Bool-cases (ltb (length (next ∷ peers)) 3)) [
        | inl few ↦ rw few (locked_blocks rounds (after_failure r addr (next ∷ peers) p))
        | inr many ↦ rw many (
            loop_blocks rounds (after_failure r addr (next ∷ peers) p) next peers refl refuse
              (omega arith))
      ]

  loop_of_known :
      (first : Round) (rounds : List Round) (p : P2PClient) (addr : Text) (peers : List Text)
      → p.connected ≡ false
      → p.optional_peer_override ≡ []
      → p.known_peers ≡ addr ∷ peers
      → (ensure_connected sha256 first rounds p).1 ≡ (connect_loop sha256 rounds false p).1
  unfolding ensure_connected from_known is_empty
  loop_of_known first rounds p addr peers off no_override e =
      simp (ensure_connected, off, no_override, from_known, is_empty, e)

  -- A client without a connection and without an override peer, whose known peers all refuse to be
  -- dialled, never gets past them: given a round for each of them, `ensureConnected` comes to wait for
  -- the mutex of the peers, which it has locked itself.
  pub ensure_connected_blocks :
      (first : Round) (rounds : List Round) (p : P2PClient)
      → p.connected ≡ false
      → p.optional_peer_override ≡ []
      → p.known_peers ≢ []
      → All NoPeer rounds
      → length p.known_peers ≤ length rounds
      → (ensure_connected sha256 first rounds p).1 ≡ blocked
  ensure_connected_blocks first rounds p off no_override known refuse enough =
      let (addr, peers, e) = cons_of p.known_peers known in
      loop_of_known first rounds p addr peers off no_override e
      ∙ loop_blocks rounds p addr peers e refuse (omega (arith, enough, ap length e))
