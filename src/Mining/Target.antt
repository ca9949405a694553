-- ===== src/Mining/Target.antt =====
-- The target in 32 bytes stands for the target.
use doge_lucky_mining.Common.{
  ℕ, zero, suc, ◌-◌, ◌*◌, ◌/◌, ◌^◌, ◌≤◌, ◌<◌, ◌≡◌, refl, ap, ◌∙◌, some, [], ◌∷◌, ◌++◌, arith,
  length, length-append, length-replicate, length-reverse, replicate, reverse, reverse-append,
  reverse-reverse, All, All-append, le→not_ltb,
}
use doge_lucky_mining.Bytes.{Bytes, IsByte, IsHash, get_le}
use doge_lucky_mining.HashCompare.{reverse_bytes_in_place}
use doge_lucky_mining.HashCompare.Reverse.{reverse_bytes_in_place-eq-reverse}
use doge_lucky_mining.Compact.{le_digits, bytes_be}
use native.Mathlib.Nat.{pow-suc}
use doge_lucky_mining.Mining.{target_bytes_le}

pub get_le-le_digits : (fuel n : ℕ) → n ≤ fuel → get_le (le_digits fuel n) ≡ n
unfolding get_le le_digits
get_le-le_digits zero n h = omega arith
get_le-le_digits (suc fuel) zero h = refl
get_le-le_digits (suc fuel) (suc n) h =
    omega (arith, get_le-le_digits fuel (suc n / 256) (omega arith))

pub le_digits-IsByte : (fuel n : ℕ) → All IsByte (le_digits fuel n)
unfolding le_digits
le_digits-IsByte zero n = tt
le_digits-IsByte (suc fuel) zero = tt
le_digits-IsByte (suc fuel) (suc n) = (omega arith, le_digits-IsByte fuel (suc n / 256))

div_lt : (n m p : ℕ) → n < p → p ≡ 256 * m → n / 256 < m
div_lt n m p h e = omega arith

pub length-le_digits-le : (k fuel n : ℕ) → n < 256 ^ k → length (le_digits fuel n) ≤ k
unfolding le_digits
length-le_digits-le k zero n h = omega arith
length-le_digits-le k (suc fuel) zero h = omega arith
length-le_digits-le zero (suc fuel) (suc n) h = absurd (omega arith)
length-le_digits-le (suc k) (suc fuel) (suc n) h = omega (
  arith,
  length-le_digits-le k fuel (suc n / 256)
      (div_lt (suc n) (256 ^ k) (256 ^ suc k) h (omega (arith, pow-suc 256 k))),
)

pub get_le-zeros : (b : Bytes) (n : ℕ) → get_le (b ++ replicate n 0) ≡ get_le b
unfolding get_le
get_le-zeros [] zero = refl
get_le-zeros [] (suc n) = omega (arith, get_le-zeros [] n)
get_le-zeros (x ∷ b) n = omega (arith, get_le-zeros b n)

pub zeros-IsByte : (n : ℕ) → All IsByte (replicate n 0)
zeros-IsByte zero = tt
zeros-IsByte (suc n) = (omega arith, zeros-IsByte n)

module _ {A : Type 0} (a : A) where
  replicate-snoc : (n : ℕ) → replicate n a ++ (a ∷ []) ≡ replicate (suc n) a
  replicate-snoc zero = refl
  replicate-snoc (suc n) = ap (λ t. a ∷ t) (replicate-snoc n)

  pub reverse-replicate : (n : ℕ) → reverse (replicate n a) ≡ replicate n a
  reverse-replicate zero = refl
  reverse-replicate (suc n) =
      reverse-append (a ∷ []) (replicate n a) ∙ rw (reverse-replicate n) (replicate-snoc n)

-- The bytes of a target below 2 ^ 256 are a hash that reads, lowest byte first, as the target.
pub target_bytes_le_lem :
    (target : ℕ)
    → target < 2 ^ 256
    → (t : Bytes) × (target_bytes_le target ≡ some t) × IsHash t × (get_le t ≡ target)
unfolding target_bytes_le bytes_be
target_bytes_le_lem target h =
    let d = le_digits target target in
    let small : length d ≤ 32 = length-le_digits-le 32 target target (omega arith) in
    let z = replicate (32 - length (reverse d)) 0 in
    (
      reverse_bytes_in_place (z ++ reverse d),
      rw (le→not_ltb 32 (length (reverse d)) (omega (arith, length-reverse d))) refl,
      (
        rw (turned d (32 - length (reverse d))) (
            omega (
              arith,
              length-append d z,
              length-replicate {A = ℕ} (32 - length (reverse d)) 0,
              length-reverse d,
            )),
        rw (turned d (32 - length (reverse d))) (
            All-append IsByte d z (le_digits-IsByte target target)
              (zeros-IsByte (32 - length (reverse d)))),
      ),
      rw (turned d (32 - length (reverse d)))
          (get_le-zeros d (32 - length (reverse d)) ∙ get_le-le_digits target target (omega arith)),
    )
  where
    turned :
        (d : Bytes) (n : ℕ)
        → reverse_bytes_in_place (replicate n 0 ++ reverse d) ≡ d ++ replicate n 0
    turned d n =
        reverse_bytes_in_place-eq-reverse (replicate n 0 ++ reverse d)
        ∙ reverse-append (replicate n 0) (reverse d)
        ∙ rw (reverse-reverse d, reverse-replicate {A = ℕ} 0 n) refl
