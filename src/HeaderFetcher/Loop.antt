-- ===== src/HeaderFetcher/Loop.antt =====
-- What one round of requests leaves in the map, and how many of them succeed.
use doge_lucky_mining.Common.{
  ℕ, zero, suc, ◌+◌, ◌≤◌, ◌<◌, ◌≡◌, ◌≢◌, refl, ap, ◌∙◌, sym, ◌⊎◌, inl, inr, arith, true, false,
  Option, none, some, List, [], ◌∷◌, leb, ◌==◌, Bool-cases, Option-cases, le→not_ltb, lt→ltb,
  leb→le, ==_iff,
}
use doge_lucky_mining.Block.{BlockHeader}
use doge_lucky_mining.HeaderFetcher.{get_header, put_header, without_header, fetch_loop}

get_header-without :
    (k j : ℕ) (m : List (ℕ × BlockHeader))
    → k ≢ j
    → get_header k (without_header j m) ≡ get_header k m
unfolding get_header without_header
get_header-without k j [] n = refl
get_header-without k j ((i, h) ∷ m) n = elim (Bool-cases (i == j)) [
  | inl e ↦
      let other : (i == k) ≡ false = ground arith in rw (e, other) (get_header-without k j m n)
  | inr e ↦
      rw e (elim (Bool-cases (i == k)) [
        | inl f ↦ rw f refl
        | inr f ↦ rw f (get_header-without k j m n)
      ])
]

get_header-put :
    (k j : ℕ) (h : BlockHeader) (m : List (ℕ × BlockHeader))
    → k ≢ j
    → get_header k (put_header j h m) ≡ get_header k m
unfolding get_header put_header
get_header-put k j h m n =
    let other : (j == k) ≡ false = ground arith in rw other (get_header-without k j m n)

get_header-put_same :
    (k : ℕ) (h : BlockHeader) (m : List (ℕ × BlockHeader))
    → get_header k (put_header k h m) ≡ some h
unfolding get_header put_header
get_header-put_same k h m = let same : (k == k) ≡ true = ground arith in rw same refl

module _ (fetch : ℕ → Option BlockHeader) where
  -- The node answers for `n` heights from one on.
  abbrev pub Answers : ℕ → ℕ → Type 0
  Answers height n = (k : ℕ) → height ≤ k → k < height + n → (h : BlockHeader) × (fetch k ≡ some h)

  loop_some :
      (left height errors s : ℕ) (hs : List (ℕ × BlockHeader)) (h : BlockHeader)
      → fetch height ≡ some h
      → fetch_loop fetch (suc left) height errors (hs, s)
        ≡ fetch_loop fetch left (height + 1) 0 (put_header height h hs, s + 1)
  unfolding fetch_loop
  loop_some left height errors s hs h e = rw (e, fetch_loop) refl

  loop_none :
      (left height errors s : ℕ) (hs : List (ℕ × BlockHeader))
      → fetch height ≡ none
      → errors ≤ 9
      → fetch_loop fetch (suc left) height errors (hs, s)
        ≡ fetch_loop fetch left (height + 1) (errors + 1) (hs, s)
  unfolding fetch_loop
  loop_none left height errors s hs e few =
      rw (e, fetch_loop) (rw (le→not_ltb 10 (errors + 1) (omega arith)) refl)

  loop_stop :
      (left height errors s : ℕ) (hs : List (ℕ × BlockHeader))
      → fetch height ≡ none
      → 10 ≤ errors
      → fetch_loop fetch (suc left) height errors (hs, s) ≡ (hs, s)
  unfolding fetch_loop
  loop_stop left height errors s hs e many =
      rw (e, fetch_loop) (rw (lt→ltb 10 (errors + 1) (omega arith)) refl)

  still : (k height : ℕ) → (k < height) ⊎ (fetch k ≡ none) → (k < height + 1) ⊎ (fetch k ≡ none)
  still k height (inl l) = inl (omega arith)
  still k height (inr e) = inr e

  differs :
      (k height : ℕ) (h : BlockHeader)
      → (k < height) ⊎ (fetch k ≡ none)
      → fetch height ≡ some h
      → k ≢ height
  differs k height h (inl l) e q = omega (arith, l, q)
  differs k height h (inr n) e q = none_some (sym n ∙ ap fetch q ∙ e)
    where
      none_some : {x : BlockHeader} → none ≡ some x → ⊥
      none_some p = cc

  -- A height below the loop, or one that the node has no answer for, is left as it is.
  pub loop_keeps :
      (left height errors s k : ℕ) (hs : List (ℕ × BlockHeader))
      → (k < height) ⊎ (fetch k ≡ none)
      → get_header k (fetch_loop fetch left height errors (hs, s)).0 ≡ get_header k hs
  loop_keeps zero height errors s k hs c = unfold fetch_loop in refl
  loop_keeps (suc left) height errors s k hs c = elim (Option-cases (fetch height)) [
    | inr (h, e) ↦ rw (loop_some left height errors s hs h e) (
        loop_keeps left (height + 1) 0 (s + 1) k (put_header height h hs) (still k height c)
        ∙ get_header-put k height h hs (differs k height h c e))
    | inl e ↦ elim (le_or_gt errors) [
      | inl few ↦
          rw (loop_none left height errors s hs e few)
            (loop_keeps left (height + 1) (errors + 1) s k hs (still k height c))
      | inr many ↦ rw (loop_stop left height errors s hs e many) refl
    ]
  ]
    where
      le_or_gt : (n : ℕ) → (n ≤ 9) ⊎ (10 ≤ n)
      le_or_gt n = elim (Bool-cases (leb n 9)) [
        | inl e ↦ inl (leb→le n 9 e)
        | inr e ↦ inr (ground arith)
      ]

  shorter : (height left : ℕ) → Answers height (suc left) → Answers (height + 1) left
  shorter height left a k l u = a k (omega arith) (omega arith)

  -- If the node answers for every height, every request counts and every header is there.
  pub loop_all :
      (left height errors s : ℕ) (hs : List (ℕ × BlockHeader))
      → Answers height left
      → ((fetch_loop fetch left height errors (hs, s)).1 ≡ s + left)
        × ((k : ℕ)
            → height ≤ k
            → k < height + left
            → get_header k (fetch_loop fetch left height errors (hs, s)).0 ≡ fetch k)
  loop_all zero height errors s hs a =
      unfold fetch_loop in (omega arith, (λ k l u. absurd (omega arith)))
  loop_all (suc left) height errors s hs a =
      let (h, e) = a height (omega arith) (omega arith) in
      let (count, got) =
        loop_all left (height + 1) 0 (s + 1) (put_header height h hs) (shorter height left a) in
      rw (loop_some left height errors s hs h e) (
        omega (arith, count),
        (λ k l u. elim (Bool-cases (leb (height + 1) k)) [
          | inl later ↦ got k (leb→le (height + 1) k later) (omega arith)
          | inr now ↦
              let here : k ≡ height = ground arith in
              loop_keeps left (height + 1) 0 (s + 1) k (put_header height h hs) (inl (omega arith))
              ∙ ap (λ n. get_header n (put_header height h hs)) here
              ∙ get_header-put_same height h hs
              ∙ sym e
              ∙ ap fetch (sym here)
        ]),
      )

  apart : (a b : ℕ) → (a == b) ≡ false → a ≢ b
  apart a b e q = true_false (sym ((==_iff a b).1 q) ∙ e)
    where
      true_false : true ≡ false → ⊥
      true_false p = cc

  strict : (a b : ℕ) → a ≤ b → a ≢ b → a + 1 ≤ b
  strict a b l n = ground arith

  -- One height without an answer costs one success.
  pub loop_but_one :
      (left height s k : ℕ) (hs : List (ℕ × BlockHeader))
      → height ≤ k
      → k < height + left
      → fetch k ≡ none
      → ((j : ℕ) → height ≤ j → j < height + left → j ≢ k → (h : BlockHeader) × (fetch j ≡ some h))
      → (fetch_loop fetch left height 0 (hs, s)).1 + 1 ≡ s + left
  loop_but_one zero height s k hs l u e a = absurd (omega arith)
  loop_but_one (suc left) height s k hs l u e a = elim (Bool-cases (height == k)) [
    | inl here ↦
        let same : height ≡ k = (==_iff height k).0 here in
        rw (loop_none left height 0 s hs (ap fetch same ∙ e) (omega arith)) (
          omega (
            arith,
            (loop_all left (height + 1) 1 s hs
                (λ j lo hi. a j (omega arith) (omega arith) (λ q. omega (arith, q, same)))).0,
          ))
    | inr later ↦
        let other : height ≢ k = apart height k later in
        let above : height + 1 ≤ k = strict height k l other in
        let (h, f) = a height (omega arith) (omega arith) other in
        rw (loop_some left height 0 s hs h f) (
          omega (
            arith,
            loop_but_one left (height + 1) (s + 1) k (put_header height h hs) above (omega arith) e
                (λ j lo hi n. a j (omega arith) (omega arith) n),
          ))
  ]
