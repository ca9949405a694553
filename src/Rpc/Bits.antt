-- ===== src/Rpc/Bits.antt =====
-- The bits of a template that comes from the node.
use doge_lucky_mining.Common.{ℕ, ◌^◌, ◌<◌, ◌≡◌, refl, ◌∙◌, ok, length, reverse, length-reverse}
use doge_lucky_mining.Bytes.{put_le, get_le, length-put_le, put_le-IsByte}
use doge_lucky_mining.Hex.{encode}
use doge_lucky_mining.Hex.Laws.{length-encode, decode-encode}
use doge_lucky_mining.Template.{BlockTemplate, template_bits}
use doge_lucky_mining.Template.Bits.{All-reverse}

-- The bits of `getblocktemplate` are a text with the highest byte first: `createEmptyBlock` reads the
-- lowest byte first, and takes the number whose four bytes are in the other order.
pub template_bits-getblocktemplate :
    (t : BlockTemplate) (bits : ℕ)
    → bits < 2 ^ 32
    → t.bits ≡ encode (reverse (put_le 4 bits))
    → template_bits t ≡ ok (get_le (reverse (put_le 4 bits)))
unfolding template_bits
template_bits-getblocktemplate t bits h e =
    let b = reverse (put_le 4 bits) in
    let four : length b ≡ 4 = length-reverse (put_le 4 bits) ∙ length-put_le 4 bits in
    rw e (
      rw
        (
          length-encode b,
          four,
          decode-encode b (All-reverse (put_le 4 bits) (put_le-IsByte 4 bits)),
          template_bits,
        )
        (rw four refl))
