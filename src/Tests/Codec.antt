-- ===== src/Tests/Codec.antt =====
-- The codecs and the byte order at concrete inputs.
use doge_lucky_mining.Common.{
  ℕ, zero, suc, ◌<◌, ◌≡◌, refl, arith, All, Option, none, some, [], ◌∷◌, ◌++◌, ok, replicate, leb,
}
use mathlib.Core.Path.{subst}
use doge_lucky_mining.Bytes.{IsByte, get_le}
use doge_lucky_mining.Hex.{encode, decode}
use doge_lucky_mining.Hex.Laws.{decode-encode}
use doge_lucky_mining.HashCompare.{hash_meets_target_le}
use doge_lucky_mining.HashCompare.Order.{hash_meets_target_le_lem}
use doge_lucky_mining.Block.{Transaction, BlockHeader, serialize_tx, serialize_aux_pow}
use doge_lucky_mining.Block.Skip.{skip_transaction, skip_aux_pow}
use doge_lucky_mining.Block.SkipLaws.{
  TxFits, AuxPowFits, skip_transaction-serialize_tx, skip_aux_pow-serialize_aux_pow,
}
use doge_lucky_mining.Tests.Data.{hash_of, a_transaction, an_aux_pow}

decode-encode_example : decode (encode (0x1e ∷ 0xff ∷ [])) ≡ some (0x1e ∷ 0xff ∷ [])
decode-encode_example = decode-encode (0x1e ∷ 0xff ∷ []) (omega arith, (omega arith, tt))

pub All-bytes : (n b : ℕ) → b < 256 → All IsByte (replicate n b)
All-bytes zero b h = tt
All-bytes (suc n) b h = (h, All-bytes n b h)

hash_meets_target_le_lem_example :
    hash_meets_target_le (hash_of 3) (hash_of 4) ≡ leb (get_le (hash_of 3)) (get_le (hash_of 4))
hash_meets_target_le_lem_example =
    hash_meets_target_le_lem (hash_of 3) (hash_of 4) (refl, All-bytes 32 3 (omega arith))
      (refl, All-bytes 32 4 (omega arith))

a_transaction-TxFits : TxFits a_transaction
a_transaction-TxFits = record {
  inputs_fit = (record { hash_32 = refl; script_fits = omega arith }, tt);
  inputs_count = omega arith;
  outputs_fit = (record { script_fits = omega arith }, tt);
  outputs_count = omega arith;
}

skip_transaction-serialize_tx_example :
    skip_transaction (serialize_tx a_transaction ++ (9 ∷ [])) ≡ ok (tt, 9 ∷ [])
skip_transaction-serialize_tx_example =
    skip_transaction-serialize_tx a_transaction (9 ∷ []) a_transaction-TxFits

some_eq : (tx : Transaction) → some a_transaction ≡ some tx → a_transaction ≡ tx
some_eq tx h = cc

pub an_aux_pow-AuxPowFits : AuxPowFits an_aux_pow
an_aux_pow-AuxPowFits = record {
  coinbase_fits = λ tx h. subst TxFits (some_eq tx h) a_transaction-TxFits;
  hash_32 = refl;
  branch_32 = (refl, tt);
  branch_count = omega arith;
  chain_32 = tt;
  chain_count = omega arith;
  parent_fits = λ h e. absurd (none_ne_some e);
}
  where
    none_ne_some : {h : BlockHeader} → ◌≡◌ {A = Option BlockHeader} none (some h) → ⊥
    none_ne_some e = cc

skip_aux_pow-serialize_aux_pow_example :
    skip_aux_pow (serialize_aux_pow an_aux_pow ++ (9 ∷ [])) ≡ ok (tt, 9 ∷ [])
skip_aux_pow-serialize_aux_pow_example =
    skip_aux_pow-serialize_aux_pow an_aux_pow (9 ∷ []) an_aux_pow-AuxPowFits
