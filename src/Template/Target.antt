-- ===== src/Template/Target.antt =====
-- The target that the miner reads from a template is that of the bits of the next block.
use doge_lucky_mining.Common.{
  ℕ, ◌-◌, ◌^◌, ◌≤◌, ◌<◌, ◌≡◌, refl, ◌∙◌, some, ◌++◌, arith, length, length-reverse, replicate,
  reverse, reverse-append, reverse-reverse, All, All-append, le→not_ltb, ◌==◌, List, ltb,
  if◌then◌else◌, false,
}
use doge_lucky_mining.Bytes.{Bytes, IsByte, get_le}
use doge_lucky_mining.Hex.{decode}
use doge_lucky_mining.Hex.Laws.{decode-encode}
use doge_lucky_mining.Block.{Block}
use doge_lucky_mining.Compact.{le_digits, bytes_be, bits_to_target, bits_to_target_hex}
use doge_lucky_mining.Mining.{ScryptMiner, mine_with_strategy}
use doge_lucky_mining.Mining.Parallel.{mine_block, mine_parallel, of_search}
use doge_lucky_mining.Mining.Target.{
  get_le-le_digits, le_digits-IsByte, length-le_digits-le, get_le-zeros, reverse-replicate,
  zeros-IsByte,
}
use doge_lucky_mining.Template.Bits.{All-reverse}

-- The bytes of a number, with zeros in front, decode to it from the last byte on.
pub value_of : (n : ℕ) → get_le (reverse (replicate (32 - length (bytes_be n)) 0 ++ bytes_be n)) ≡ n
unfolding bytes_be
value_of n =
    let d = le_digits n n in
    let k = 32 - length (reverse d) in
    rw
      (reverse-append (replicate k 0) (reverse d), reverse-reverse d, reverse-replicate {A = ℕ} 0 k)
      (get_le-zeros d k ∙ get_le-le_digits n n (omega arith))

bytes_be-IsByte : (n : ℕ) → All IsByte (bytes_be n)
unfolding bytes_be
bytes_be-IsByte n = All-reverse (le_digits n n) (le_digits-IsByte n n)

length-bytes_be-le : (n : ℕ) → n < 2 ^ 256 → length (bytes_be n) ≤ 32
unfolding bytes_be
length-bytes_be-le n h =
    omega (arith, length-reverse (le_digits n n), length-le_digits-le 32 n n (omega arith))

pub decode-bits_to_target_hex :
    (bits : ℕ)
    → bits_to_target bits < 2 ^ 256
    → decode (bits_to_target_hex bits)
      ≡ some (
          replicate (32 - length (bytes_be (bits_to_target bits))) 0
          ++ bytes_be (bits_to_target bits))
unfolding bits_to_target_hex
decode-bits_to_target_hex bits h =
    let b = bytes_be (bits_to_target bits) in
    rw (le→not_ltb 32 (length b) (length-bytes_be-le (bits_to_target bits) h)) (
      decode-encode (replicate (32 - length b) 0 ++ b) (
        All-append IsByte (replicate (32 - length b) 0) b (zeros-IsByte (32 - length b))
          (bytes_be-IsByte (bits_to_target bits))))

-- For bits with a positive target of at most 256 bits, the miner that is given the template's target
-- as text searches for that target: the text loses nothing.
pub mine_block-bits_to_target_hex :
    (scrypt : Bytes → Bytes) (m : ScryptMiner) (start : ℕ) (schedule : List ℕ) (block : Block)
    (bits : ℕ)
    → 0 < bits_to_target bits
    → bits_to_target bits < 2 ^ 256
    → mine_block scrypt m start schedule block (bits_to_target_hex bits) ≡ (
        if ltb 1 m.thread_count
        then mine_parallel scrypt m start schedule block (bits_to_target bits)
        else of_search scrypt (mine_with_strategy scrypt m start block (bits_to_target bits)))
unfolding mine_block of_search
mine_block-bits_to_target_hex scrypt m start schedule block bits pos small =
    let nonzero : (bits_to_target bits == 0) ≡ false = ground arith in
    rw (decode-bits_to_target_hex bits small, mine_block)
      (rw (value_of (bits_to_target bits)) (rw nonzero refl))
