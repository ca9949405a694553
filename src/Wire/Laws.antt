-- ===== src/Wire/Laws.antt =====
-- What was written is read back, and a read leaves a shorter input.
use doge_lucky_mining.Common.{
  ℕ, zero, suc, ◌%◌, ◌^◌, ◌<◌, ◌≡◌, refl, inl, inr, [], ◌∷◌, ◌++◌, arith, ltb, leb, ok, length,
  Bool-cases, ltb→lt, lt→ltb, leb→le,
}
use doge_lucky_mining.Bytes.{Bytes, put_le, length-put_le, get_le-put_le}
use doge_lucky_mining.Wire.{
  ◌>>=◌, read_full, discard, discard_int64, read_le, write_var_int, read_var_int, read_var_int_tail,
}

pub read_full-append :
    (n : ℕ) (xs rest : Bytes) → length xs ≡ n → read_full n (xs ++ rest) ≡ ok (xs, rest)
unfolding read_full
read_full-append zero [] rest h = refl
read_full-append zero (x ∷ xs) rest h = absurd (omega arith)
read_full-append (suc n) [] rest h = absurd (omega arith)
read_full-append (suc n) (x ∷ xs) rest h = rw (read_full-append n xs rest (omega arith))

pub discard-append :
    (n : ℕ) (xs rest : Bytes) → length xs ≡ n → discard n (xs ++ rest) ≡ ok (tt, rest)
unfolding discard
discard-append zero [] rest h = refl
discard-append zero (x ∷ xs) rest h = absurd (omega arith)
discard-append (suc n) [] rest h = absurd (omega arith)
discard-append (suc n) (x ∷ xs) rest h = discard-append n xs rest (omega arith)

pub discard_int64-append :
    (n : ℕ) (xs rest : Bytes)
    → length xs ≡ n
    → n < 2 ^ 63
    → discard_int64 n (xs ++ rest) ≡ ok (tt, rest)
unfolding discard_int64
discard_int64-append n xs rest h k = rw (lt→ltb n (2 ^ 63) k) (discard-append n xs rest h)

pub read_le-append :
    (k v : ℕ) (rest : Bytes) → v < 256 ^ k → read_le k (put_le k v ++ rest) ≡ ok (v, rest)
unfolding read_le
read_le-append k v rest h =
    rw (read_full-append k (put_le k v) rest (length-put_le k v), read_le, ◌>>=◌)
      (rw (get_le-put_le k v h))

small_var_int :
    (val : ℕ) (rest : Bytes) → val < 0xFD → read_var_int_tail (val % 256) rest ≡ ok (val, rest)
unfolding read_var_int_tail
small_var_int val rest h = let e : val % 256 ≡ val = omega arith in rw e (ground arith)

-- A `uint64` that `writeVarInt` wrote is read back by `readVarInt`, which leaves what follows it.
pub read_var_int-write_var_int :
    (val : ℕ) (rest : Bytes)
    → val < 2 ^ 64
    → read_var_int (write_var_int val ++ rest) ≡ ok (val, rest)
unfolding write_var_int read_var_int read_var_int_tail
read_var_int-write_var_int val rest h = elim (Bool-cases (ltb val 0xFD)) [
  | inl e ↦ rw e (small_var_int val rest (ltb→lt _ _ e))
  | inr e ↦ elim (Bool-cases (leb val 0xFFFF)) [
    | inl e2 ↦ rw (e, e2) (read_le-append 2 val rest (omega (arith, leb→le _ _ e2)))
    | inr e2 ↦ elim (Bool-cases (leb val 0xFFFFFFFF)) [
      | inl e3 ↦ rw (e, e2, e3) (read_le-append 4 val rest (omega (arith, leb→le _ _ e3)))
      | inr e3 ↦ rw (e, e2, e3) (read_le-append 8 val rest (omega arith))
    ]
  ]
]
