-- ===== src/Block/Skip.antt =====
-- p2p.go, `skipTransaction` and `skipAuxPow`: how the P2P client passes over a transaction and over
-- merge-mining data that it does not read. A loop over a count read from the wire recurs on the
-- count; it ends because every round takes input or fails.
use doge_lucky_mining.Common.{ℕ, zero, suc, ◌*◌, ◌%◌, ◌^◌}
use doge_lucky_mining.Wire.{Reader, return, ◌>>=◌, ◌>>◌, discard, discard_int64, read_var_int}

-- A `uint64` product, as `n*32` is before its conversion to `int64`.
abbrev pub mul64 : ℕ → ℕ → ℕ
mul64 a b = a * b % 2 ^ 64

unfoldable pub skip_script : Reader (Unit {0})
skip_script = do script_len ← read_var_int; discard_int64 script_len

unfoldable pub skip_inputs : ℕ → Reader (Unit {0})
skip_inputs zero = return tt
skip_inputs (suc n) = do discard 36; skip_script; discard 4; skip_inputs n

unfoldable pub skip_outputs : ℕ → Reader (Unit {0})
skip_outputs zero = return tt
skip_outputs (suc n) = do discard 8; skip_script; skip_outputs n

unfoldable pub skip_transaction : Reader (Unit {0})
skip_transaction = do
  discard 4
  n_vin ← read_var_int
  skip_inputs n_vin
  n_vout ← read_var_int
  skip_outputs n_vout
  discard 4

-- A varint count of hashes, the hashes, and a 4-byte index.
unfoldable pub skip_branch : Reader (Unit {0})
skip_branch = do n ← read_var_int; discard_int64 (mul64 n 32); discard 4

unfoldable pub skip_aux_pow : Reader (Unit {0})
skip_aux_pow = do skip_transaction; discard 32; skip_branch; skip_branch; discard 80
