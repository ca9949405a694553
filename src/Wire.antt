-- ===== src/Wire.antt =====
-- The wire format of Bitcoin-style messages: `bytes.Reader` as input that is left, and the variable
-- length integers and strings of block.go (`writeVarInt`) and p2p.go (`readVarInt`, `readString`,
-- `readVarStr`).
pub mod Laws
use doge_lucky_mining.Common.{
  ℕ, zero, suc, ◌+◌, ◌*◌, ◌%◌, ◌^◌, ◌<◌, ◌≡◌, Bool, true, false, List, [], ◌∷◌, ◌++◌, ltb, leb,
  ◌==◌, if◌then◌else◌, Result, ok, err,
}
use doge_lucky_mining.Bytes.{Bytes, put_le, get_le}

-- `io.EOF` and `io.ErrUnexpectedEOF` are one case: no caller tells them apart.
pub data ReadError : Type 0 where
  eof too_long : ReadError

-- A read from a `*bytes.Reader`: the input that is left goes in and comes out.
abbrev pub Reader {ℓ} : Type ℓ → Type ℓ
Reader A = Bytes → Result ReadError (A × Bytes)

abbrev pub return {ℓ} : {A : Type ℓ} → A → Reader A
return a r = ok (a, r)

abbrev pub fail {ℓ} : {A : Type ℓ} → ReadError → Reader A
fail e r = err e

infixl 5 ◌>>=◌ ◌>>◌
abbrev pub ◌>>=◌ {ℓ κ} : {A : Type ℓ} {B : Type κ} → Reader A → (A → Reader B) → Reader B
◌>>=◌ m f r = elim (m r) [ ok (a, r') ↦ f a r' | err e ↦ err e ]

abbrev pub ◌>>◌ {ℓ} : {B : Type ℓ} → Reader (Unit {0}) → Reader B → Reader B
m >> k = m >>= λ _. k

-- `io.ReadFull(r, buf)` into a buffer of `n` bytes.
unfoldable pub read_full : ℕ → Reader Bytes
read_full zero r = ok ([], r)
read_full (suc n) [] = err eof
read_full (suc n) (b ∷ r) = elim (read_full n r) [ ok (bs, r') ↦ ok (b ∷ bs, r') | err e ↦ err e ]

-- `io.CopyN(io.Discard, r, n)` for `0 ≤ n`.
unfoldable pub discard : ℕ → Reader (Unit {0})
discard zero r = ok (tt, r)
discard (suc n) [] = err eof
discard (suc n) (b ∷ r) = discard n r

-- `io.CopyN(io.Discard, r, int64(n))` for a `uint64` n: a count that is negative as an `int64` copies
-- nothing and reports no error.
unfoldable pub discard_int64 : ℕ → Reader (Unit {0})
discard_int64 n = if ltb n (2 ^ 63) then discard n else return tt

-- `binary.Read` of an unsigned integer of `k` bytes.
unfoldable pub read_le : ℕ → Reader ℕ
read_le k = do bs ← read_full k; return (get_le bs)

unfoldable pub write_var_int : ℕ → Bytes
write_var_int val =
    if ltb val 0xFD
    then val % 256 ∷ []
    else if leb val 0xFFFF
    then 0xFD ∷ put_le 2 val
    else if leb val 0xFFFFFFFF
    then 0xFE ∷ put_le 4 val
    else 0xFF ∷ put_le 8 val

unfoldable pub read_var_int_tail : ℕ → Reader ℕ
read_var_int_tail b =
    if b == 0xfd
    then read_le 2
    else if b == 0xfe
    then read_le 4
    else if b == 0xff
    then read_le 8
    else return b

unfoldable pub read_var_int : Reader ℕ
read_var_int [] = err eof
read_var_int (b ∷ r) = read_var_int_tail b r

-- `readString` is this at 256 bytes, `readVarStr` at 1 << 20.
unfoldable pub read_bounded : ℕ → Reader Bytes
read_bounded limit = do n ← read_var_int; if ltb limit n then fail too_long else read_full n

unfoldable pub read_string : Reader Bytes
read_string = read_bounded 256

unfoldable pub read_var_str : Reader Bytes
read_var_str = read_bounded (2 ^ 20)
