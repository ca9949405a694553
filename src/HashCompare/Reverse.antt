-- ===== src/HashCompare/Reverse.antt =====
-- The loops that reverse a byte string in place or into a copy compute the library's `reverse`.
use doge_lucky_mining.Common.{
  ℕ, zero, suc, ◌+◌, ◌-◌, ◌/◌, ◌<◌, ◌≤◌, ◌≡◌, refl, ap, sym, ◌∙◌, inl, inr, false, [], ◌∷◌, ◌++◌,
  arith, length, get_or, set, reverse, ltb, leb, ◌==◌, if◌then◌else◌, reverse-append,
  length-reverse, Bool-cases, ltb→lt, ◌&&◌, ◌||◌,
}
use doge_lucky_mining.Bytes.{Bytes}
use doge_lucky_mining.HashCompare.{
  swap, reverse_rounds, reverse_bytes_in_place, reverse_bytes, reverse_bytes_from,
}

length-set : (b : Bytes) (i v : ℕ) → length (set b i v) ≡ length b
length-set [] i v = refl
length-set (x ∷ b) zero v = refl
length-set (x ∷ b) (suc i) v = ap suc (length-set b i v)

get_or-set :
    (b : Bytes) (i j v : ℕ)
    → i < length b
    → get_or (set b i v) j 0 ≡ (if leb i j && leb j i then v else get_or b j 0)
get_or-set [] i j v h = absurd (omega arith)
get_or-set (x ∷ b) zero zero v h = refl
get_or-set (x ∷ b) zero (suc j) v h = ground arith
get_or-set (x ∷ b) (suc i) zero v h = ground arith
get_or-set (x ∷ b) (suc i) (suc j) v h = ground (arith, get_or-set b i j v (omega arith))

-- Two byte strings of one length that agree at every index are equal.
get_or_ext :
    (a b : Bytes)
    → length a ≡ length b
    → ((i : ℕ) → i < length a → get_or a i 0 ≡ get_or b i 0)
    → a ≡ b
get_or_ext [] [] h k = refl
get_or_ext [] (y ∷ b) h k = absurd (omega arith)
get_or_ext (x ∷ a) [] h k = absurd (omega arith)
get_or_ext (x ∷ a) (y ∷ b) h k =
    let tails = get_or_ext a b (omega arith) (λ i p. k (suc i) (omega arith)) in
    cc (k 0 (omega arith), tails)

sub_zero : {i : ℕ} → i ≡ i - 0
sub_zero = omega arith

get_or-append :
    (a b : Bytes) (i : ℕ)
    → get_or (a ++ b) i 0 ≡ (if ltb i (length a) then get_or a i 0 else get_or b (i - length a) 0)
get_or-append [] b i = ground (arith, ap (λ k. get_or b k 0) sub_zero)
get_or-append (x ∷ a) b zero = ground arith
get_or-append (x ∷ a) b (suc i) = ground (arith, get_or-append a b i)

not_ltb→le : (a b : ℕ) → ltb a b ≡ false → b ≤ a
not_ltb→le a b h = ground arith

get_or_last :
    (x : ℕ) (b : Bytes) (i : ℕ)
    → length b ≤ i
    → i < suc (length b)
    → get_or (x ∷ []) (i - length b) 0 ≡ get_or (x ∷ b) (suc (length b) - 1 - i) 0
get_or_last x b i h k =
    let e : i - length b ≡ 0 = omega arith in
    let f : suc (length b) - 1 - i ≡ 0 = omega arith in rw (e, f)

get_or-suc :
    (x : ℕ) (b : Bytes) (i : ℕ)
    → i < length b
    → get_or b (length b - 1 - i) 0 ≡ get_or (x ∷ b) (suc (length b) - 1 - i) 0
get_or-suc x b i h = let e : suc (length b) - 1 - i ≡ suc (length b - 1 - i) = omega arith in rw e

get_or-reverse :
    (b : Bytes) (i : ℕ) → i < length b → get_or (reverse b) i 0 ≡ get_or b (length b - 1 - i) 0
get_or-reverse [] i h = absurd (omega arith)
get_or-reverse (x ∷ b) i h =
    rw (reverse-append (x ∷ []) b, get_or-append (reverse b) (x ∷ []) i, length-reverse b)
      (elim (Bool-cases (ltb i (length b))) [
        | inl e ↦ rw e (get_or-reverse b i (ltb→lt _ _ e) ∙ get_or-suc x b i (ltb→lt _ _ e))
        | inr e ↦ rw e (get_or_last x b i (not_ltb→le _ _ e) h)
      ])

length-reverse_rounds : (k : ℕ) (b : Bytes) → length (reverse_rounds k b) ≡ length b
unfolding reverse_rounds
length-reverse_rounds zero b = refl
length-reverse_rounds (suc k) b =
    length-set (set (reverse_rounds k b) k _) (length b - 1 - k) _
    ∙ length-set (reverse_rounds k b) k _
    ∙ length-reverse_rounds k b

get_or-swap :
    (k m i : ℕ) (r : Bytes)
    → k < length r
    → m < length r
    → get_or (swap k m r) i 0
      ≡ (if i == m then get_or r k 0 else if i == k then get_or r m 0 else get_or r i 0)
get_or-swap k m i r h p = ground (
  arith,
  length-set r k (get_or r m 0),
  get_or-set (set r k (get_or r m 0)) m i (get_or r k 0),
  get_or-set r k i (get_or r m 0),
)

-- What index `i` holds after `k` rounds on `n` bytes that `f` gives.
abbrev after : (ℕ → ℕ) → ℕ → ℕ → ℕ → ℕ
after f n k i = if ltb i k || leb (n - k) i then f (n - 1 - i) else f i

after-suc :
    (f : ℕ → ℕ) (n k i : ℕ)
    → suc k ≤ n / 2
    → i < n
    → (if i == n - 1 - k
        then after f n k k
        else if i == k
        then after f n k (n - 1 - k)
        else after f n k i)
      ≡ after f n (suc k) i
after-suc f n k i h p = ground arith

reverse_round :
    (b : Bytes) (k i : ℕ)
    → suc k ≤ length b / 2
    → i < length b
    → ((j : ℕ)
        → j < length b
        → get_or (reverse_rounds k b) j 0 ≡ after (λ j. get_or b j 0) (length b) k j)
    → get_or (reverse_rounds (suc k) b) i 0 ≡ after (λ j. get_or b j 0) (length b) (suc k) i
reverse_round b k i h p ih =
    unfold reverse_rounds in
    (get_or-swap k (length b - 1 - k) i (reverse_rounds k b)
      (omega (arith, length-reverse_rounds k b)) (omega (arith, length-reverse_rounds k b)))
    ∙ rw (ih k (omega arith), ih (length b - 1 - k) (omega arith), ih i p)
        (after-suc (λ j. get_or b j 0) (length b) k i h p)

-- After `k` rounds the first `k` bytes and the last `k` have changed places.
get_or-reverse_rounds :
    (k : ℕ) (b : Bytes) (i : ℕ)
    → k ≤ length b / 2
    → i < length b
    → get_or (reverse_rounds k b) i 0 ≡ after (λ j. get_or b j 0) (length b) k i
get_or-reverse_rounds zero b i h p = unfold reverse_rounds in ground arith
get_or-reverse_rounds (suc k) b i h p =
    reverse_round b k i h p (λ j q. get_or-reverse_rounds k b j (omega arith) q)

-- The swapping loop over half the length reverses the byte string.
pub reverse_bytes_in_place-eq-reverse : (b : Bytes) → reverse_bytes_in_place b ≡ reverse b
unfolding reverse_bytes_in_place
reverse_bytes_in_place-eq-reverse b =
    get_or_ext _ _ (length-reverse_rounds (length b / 2) b ∙ sym (length-reverse b)) λ i p.
      let lt : i < length b = omega (arith, length-reverse_rounds (length b / 2) b) in
      ground (arith, get_or-reverse_rounds (length b / 2) b i, get_or-reverse b i lt)

reverse_bytes_from-eq :
    (k i : ℕ) (b : Bytes) (j : ℕ)
    → j < k
    → i + k ≤ length b
    → get_or (reverse_bytes_from k i b) j 0 ≡ get_or b (length b - 1 - (i + j)) 0
unfolding reverse_bytes_from
reverse_bytes_from-eq zero i b j h l = absurd (omega arith)
reverse_bytes_from-eq (suc k) i b zero h l = ap (λ n. get_or b n 0) (omega arith)
reverse_bytes_from-eq (suc k) i b (suc j) h l =
    reverse_bytes_from-eq k (i + 1) b j (omega arith) (omega arith)
    ∙ ap (λ n. get_or b n 0) (omega arith)

length-reverse_bytes_from : (k i : ℕ) (b : Bytes) → length (reverse_bytes_from k i b) ≡ k
unfolding reverse_bytes_from
length-reverse_bytes_from zero i b = refl
length-reverse_bytes_from (suc k) i b = ap suc (length-reverse_bytes_from k (i + 1) b)

-- The copying loop does the same.
pub reverse_bytes-eq-reverse : (b : Bytes) → reverse_bytes b ≡ reverse b
unfolding reverse_bytes
reverse_bytes-eq-reverse b =
    get_or_ext _ _ (length-reverse_bytes_from (length b) 0 b ∙ sym (length-reverse b)) (λ i p.
      let lt : i < length b = omega (arith, length-reverse_bytes_from (length b) 0 b) in
      reverse_bytes_from-eq (length b) 0 b i lt (omega arith)
      ∙ ap (λ n. get_or b n 0) (omega arith)
      ∙ sym (get_or-reverse b i lt))
