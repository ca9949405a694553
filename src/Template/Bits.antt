-- ===== src/Template/Bits.antt =====
-- What the template's texts decode to: the bits of the next block, and the hash of the tip.
use doge_lucky_mining.Common.{
  ℕ, ◌^◌, ◌<◌, ◌≡◌, ◌∙◌, Option, none, some, [], ◌∷◌, arith, ok, length, length-reverse, reverse,
  if◌then◌else◌, ap, reverse-append, reverse-reverse, All, All-append, ◌==◌, not,
}
use doge_lucky_mining.Bytes.{
  Bytes, IsByte, IsHash, put_le, length-put_le, put_le-IsByte, get_le-put_le,
}
use doge_lucky_mining.Hex.{Text, encode}
use doge_lucky_mining.Hex.Laws.{decode-encode, length-encode}
use doge_lucky_mining.HashCompare.{reverse_bytes_in_place, reverse_rounds, hex_to_32_bytes}
use doge_lucky_mining.HashCompare.Reverse.{reverse_bytes_in_place-eq-reverse}
use doge_lucky_mining.Block.{BlockHeader}
use doge_lucky_mining.Common.Int.{pos_part}
use doge_lucky_mining.Compact.{bits_to_target, big_to_compact}
use doge_lucky_mining.Difficulty.{
  get_next_work_required_extended, next_work_of, calculate_digishield_next_work, next_target,
  modulated_timespan, value,
}
use doge_lucky_mining.Template.{BlockTemplate, template_bits}

pub All-reverse : (bs : Bytes) → All IsByte bs → All IsByte (reverse bs)
All-reverse [] h = tt
All-reverse (b ∷ bs) h =
    rw (reverse-append (b ∷ []) bs)
      (All-append IsByte (reverse bs) (b ∷ []) (All-reverse bs h.1) (h.0, tt))

-- `hexTo32Bytes` reads back the hash whose display form the template has.
pub hex_to_32_bytes-display :
    (h : Bytes) → IsHash h → hex_to_32_bytes (encode (reverse_bytes_in_place h)) ≡ some h
unfolding hex_to_32_bytes reverse_bytes_in_place
hex_to_32_bytes-display h (l, bytes) =
    rw (reverse_bytes_in_place-eq-reverse h)
      (rw (decode-encode (reverse h) (All-reverse h bytes), hex_to_32_bytes) (display h l))
  where
    display :
        (h : Bytes)
        → length h ≡ 32
        → (if not (length (reverse h) == 32) then none else some (reverse_rounds 16 (reverse h)))
          ≡ some h
    display h l =
        let turned : length (reverse h) ≡ 32 = length-reverse h ∙ l in
        let back : reverse_bytes_in_place (reverse h) ≡ h =
          reverse_bytes_in_place-eq-reverse (reverse h) ∙ reverse-reverse h in
        rw turned (ap some (rw (turned, reverse_bytes_in_place) at back))

pub template_bits-encode :
    (t : BlockTemplate) (bits : ℕ)
    → bits < 2 ^ 32
    → t.bits ≡ encode (put_le 4 bits)
    → template_bits t ≡ ok bits
unfolding template_bits
template_bits-encode t bits h e =
    let four : length (put_le 4 bits) ≡ 4 = length-put_le 4 bits in
    rw e (
      rw
        (
          length-encode (put_le 4 bits),
          four,
          decode-encode (put_le 4 bits) (put_le-IsByte 4 bits),
          template_bits,
        )
        (rw four (ap ok (get_le-put_le 4 bits (omega arith)))))

big_to_compact-u32 : (n : ℕ) → big_to_compact n < 2 ^ 32
unfolding big_to_compact
big_to_compact-u32 n = ground arith

next_work_of-u32 :
    (tip : BlockHeader) (parent : ℕ) → tip.bits < 2 ^ 32 → next_work_of tip parent < 2 ^ 32
unfolding next_work_of calculate_digishield_next_work
next_work_of-u32 tip parent h = ground (
  arith,
  big_to_compact-u32
      (next_target (bits_to_target tip.bits) (pos_part (modulated_timespan tip.timestamp parent))),
)

-- The bits of the next block fit into 32 bits if those that they are taken from do.
pub next_work-u32 :
    (tip : BlockHeader) (now : ℕ) (network : Text) (last : Option ℕ) (parent : ℕ)
    → tip.bits < 2 ^ 32
    → value last < 2 ^ 32
    → get_next_work_required_extended (some tip) now network last parent < 2 ^ 32
unfolding get_next_work_required_extended
next_work-u32 tip now network last parent h k = ground (arith, next_work_of-u32 tip parent h)
