-- ===== src/Hex/Laws.antt =====
-- Decoding what was encoded.
use doge_lucky_mining.Common.{
  ℕ, suc, ◌*◌, ◌/◌, ◌%◌, ◌<◌, ◌≡◌, refl, ap, Option, none, some, List, [], ◌∷◌, arith, length, All,
}
use doge_lucky_mining.Bytes.{Bytes, IsByte}
use doge_lucky_mining.Hex.{hex_digit, encode, hex_value, decode, push, byte_of}

hex_value-hex_digit : (d : ℕ) → d < 16 → hex_value (hex_digit d) ≡ some d
unfolding hex_value hex_digit
hex_value-hex_digit d h = ground arith

-- Decoding the hex form of a byte string gives it back.
pub decode-encode : (bs : Bytes) → All IsByte bs → decode (encode bs) ≡ some bs
unfolding decode encode
decode-encode [] h = refl
decode-encode (b ∷ bs) h =
    rw
      (
        hex_value-hex_digit (b / 16) (omega arith),
        hex_value-hex_digit (b % 16) (omega arith),
        decode-encode bs h.1,
      )
      (ap (λ k. some (k ∷ bs)) (omega arith))

pub length-encode : (bs : Bytes) → length (encode bs) ≡ 2 * length bs
unfolding encode
length-encode [] = refl
length-encode (b ∷ bs) = omega (arith, length-encode bs)

length-push :
    (o : Option ℕ) (p : Option Bytes) (bs : Bytes)
    → push o p ≡ some bs
    → (xs : Bytes) × (p ≡ some xs) × (length bs ≡ suc (length xs))
unfolding push
length-push (some b) (some xs) bs h = (xs, refl, ground arith)
length-push (some b) none bs h = cc
length-push none p bs h = cc

-- Only texts of even length decode.
pub length-decode : (t : List ℕ) (bs : Bytes) → decode t ≡ some bs → length t ≡ 2 * length bs
length-decode [] bs h = unfold decode in ground arith
length-decode (c ∷ []) bs h = unfold decode in cc
length-decode (c ∷ d ∷ rest) bs h =
    let (xs, e, l) =
      length-push (byte_of (hex_value c) (hex_value d)) (decode rest) bs (unfold decode in h) in
    omega (arith, length-decode rest xs e)
