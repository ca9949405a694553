-- ===== src/Block/SkipLaws.antt =====
-- What `Transaction.Serialize` and `AuxPow.Serialize` write is what the skipping functions pass over.
use doge_lucky_mining.Common.{
  ℕ, ◌*◌, ◌^◌, ◌<◌, ◌≡◌, refl, ap, Option, none, some, List, [], ◌∷◌, ◌++◌, arith, ok, length, All,
  append_assoc, length-append,
}
use doge_lucky_mining.Bytes.{Bytes, put_le, length-put_le}
use doge_lucky_mining.Wire.{
  Reader, ◌>>=◌, ◌>>◌, discard, discard_int64, read_var_int, write_var_int,
}
use doge_lucky_mining.Wire.Laws.{discard-append, discard_int64-append, read_var_int-write_var_int}
use doge_lucky_mining.Block.{
  TxInput, TxOutput, Transaction, BlockHeader, AuxPow, serialize_input, serialize_inputs,
  serialize_output, serialize_outputs, serialize_tx, serialize_coinbase, serialize_parent,
  serialize_aux_pow, serialize_block_header, branch_bytes,
}
use doge_lucky_mining.Block.Skip.{
  mul64, skip_script, skip_inputs, skip_outputs, skip_transaction, skip_branch, skip_aux_pow,
}

-- `p` takes exactly `printed` off the front of any input.
abbrev pub Skips : Reader (Unit {0}) → Bytes → Type 0
Skips p printed = (rest : Bytes) → p (printed ++ rest) ≡ ok (tt, rest)

Skips-then :
    (p q : Reader (Unit {0})) (xs ys : Bytes) → Skips p xs → Skips q ys → Skips (p >> q) (xs ++ ys)
Skips-then p q xs ys h k rest = rw append_assoc (rw (h (ys ++ rest), ◌>>=◌) (k rest))

Skips-count :
    (n : ℕ) (q : ℕ → Reader (Unit {0})) (ys : Bytes)
    → n < 2 ^ 64
    → Skips (q n) ys
    → Skips (read_var_int >>= q) (write_var_int n ++ ys)
Skips-count n q ys h k rest =
    rw append_assoc (rw (read_var_int-write_var_int n (ys ++ rest) h, ◌>>=◌) (k rest))

discard-Skips : (n : ℕ) (xs : Bytes) → length xs ≡ n → Skips (discard n) xs
discard-Skips n xs h rest = discard-append n xs rest h

put_le-Skips : (n v : ℕ) → Skips (discard n) (put_le n v)
put_le-Skips n v = discard-Skips n (put_le n v) (length-put_le n v)

-- The sizes that fit the wire: a 32-byte hash, and lengths that an `int64` holds.
pub record InputFits (i : TxInput) : Type 0 where
  pub hash_32 : length i.previous_output.hash ≡ 32
  pub script_fits : length i.script_sig < 2 ^ 63

pub record OutputFits (o : TxOutput) : Type 0 where
  pub script_fits : length o.script_pub_key < 2 ^ 63

pub record TxFits (tx : Transaction) : Type 0 where
  pub inputs_fit : All InputFits tx.inputs
  pub inputs_count : length tx.inputs < 2 ^ 64
  pub outputs_fit : All OutputFits tx.outputs
  pub outputs_count : length tx.outputs < 2 ^ 64

script-Skips : (s : Bytes) → length s < 2 ^ 63 → Skips skip_script (write_var_int (length s) ++ s)
unfolding skip_script
script-Skips s h =
    Skips-count (length s) discard_int64 s (omega arith)
      (λ rest. discard_int64-append (length s) s rest refl h)

regroup_input :
    (hash index n script sequence more : Bytes)
    → (hash ++ (index ++ (n ++ (script ++ sequence)))) ++ more
      ≡ (hash ++ index) ++ ((n ++ script) ++ (sequence ++ more))
regroup_input hash index n script sequence more = simp append_assoc

inputs-Skips :
    (is : List TxInput) → All InputFits is → Skips (skip_inputs (length is)) (serialize_inputs is)
unfolding skip_inputs serialize_inputs serialize_input
inputs-Skips [] h = λ rest. refl
inputs-Skips (i ∷ is) (f, fs) =
    rw
      (regroup_input i.previous_output.hash (put_le 4 i.previous_output.index)
        (write_var_int (length i.script_sig)) i.script_sig (put_le 4 i.sequence)
        (serialize_inputs is))
      (Skips-then (discard 36) _ (i.previous_output.hash ++ put_le 4 i.previous_output.index) _
        (discard-Skips 36 _ (
          omega (
            arith,
            length-append i.previous_output.hash (put_le 4 i.previous_output.index),
            length-put_le 4 i.previous_output.index,
          )))
        (Skips-then skip_script _ _ _ (script-Skips i.script_sig f.script_fits)
          (Skips-then (discard 4) _ _ _ (put_le-Skips 4 i.sequence) (inputs-Skips is fs))))

regroup_output :
    (value n script more : Bytes)
    → (value ++ (n ++ script)) ++ more ≡ value ++ ((n ++ script) ++ more)
regroup_output value n script more = simp append_assoc

outputs-Skips :
    (os : List TxOutput)
    → All OutputFits os
    → Skips (skip_outputs (length os)) (serialize_outputs os)
unfolding skip_outputs serialize_outputs serialize_output
outputs-Skips [] h = λ rest. refl
outputs-Skips (o ∷ os) (f, fs) =
    rw
      (regroup_output (put_le 8 o.value) (write_var_int (length o.script_pub_key)) o.script_pub_key
        (serialize_outputs os))
      (Skips-then (discard 8) _ _ _ (put_le-Skips 8 o.value) (
        Skips-then skip_script _ _ _ (script-Skips o.script_pub_key f.script_fits)
          (outputs-Skips os fs)))

-- `skipTransaction` passes over exactly the bytes that `Transaction.Serialize` wrote, for every
-- transaction whose hashes are 32 bytes and whose lengths fit, whatever follows it.
pub skip_transaction-serialize_tx :
    (tx : Transaction) (rest : Bytes)
    → TxFits tx
    → skip_transaction (serialize_tx tx ++ rest) ≡ ok (tt, rest)
unfolding skip_transaction serialize_tx
skip_transaction-serialize_tx tx rest fits =
    Skips-then (discard 4) _ _ _ (put_le-Skips 4 tx.version)
      (Skips-count (length tx.inputs) _ _ fits.inputs_count (
        Skips-then (skip_inputs (length tx.inputs)) _ _ _ (inputs-Skips tx.inputs fits.inputs_fit) (
          Skips-count (length tx.outputs) _ _ fits.outputs_count (
            Skips-then (skip_outputs (length tx.outputs)) _ _ _
              (outputs-Skips tx.outputs fits.outputs_fit) (put_le-Skips 4 tx.lock_time)))))
      rest

-- A merge-mining structure with 32-byte hashes and branches that an `int64` byte count holds.
pub record AuxPowFits (ap : AuxPow) : Type 0 where
  pub coinbase_fits : (tx : Transaction) → ap.coinbase_tx ≡ some tx → TxFits tx
  pub hash_32 : length ap.block_hash ≡ 32
  pub branch_32 : All (λ h. length h ≡ 32) ap.merkle_branch
  pub branch_count : length ap.merkle_branch < 2 ^ 58
  pub chain_32 : All (λ h. length h ≡ 32) ap.chain_merkle_branch
  pub chain_count : length ap.chain_merkle_branch < 2 ^ 58
  pub parent_fits :
      (h : BlockHeader)
      → ap.parent_block_header ≡ some h
      → (length h.prev_block ≡ 32) × (length h.merkle_root ≡ 32)

length-branch_bytes :
    (hs : List Bytes) → All (λ h. length h ≡ 32) hs → length (branch_bytes hs) ≡ length hs * 32
length-branch_bytes [] k = refl
length-branch_bytes (h ∷ hs) k =
    omega (arith, length-append h (branch_bytes hs), length-branch_bytes hs k.1)

branch-Skips :
    (hs : List Bytes) (index : ℕ)
    → All (λ h. length h ≡ 32) hs
    → length hs < 2 ^ 58
    → Skips skip_branch (write_var_int (length hs) ++ (branch_bytes hs ++ put_le 4 index))
unfolding skip_branch
branch-Skips hs index k c = Skips-count (length hs) _ _ (omega arith) (
    Skips-then (discard_int64 (mul64 (length hs) 32)) _ (branch_bytes hs) _
      (λ rest.
        discard_int64-append _ (branch_bytes hs) rest (omega (arith, length-branch_bytes hs k))
          (omega arith))
      (put_le-Skips 4 index))

coinbase-Skips :
    (c : Option Transaction)
    → ((tx : Transaction) → c ≡ some tx → TxFits tx)
    → Skips skip_transaction (serialize_coinbase c)
unfolding serialize_coinbase
coinbase-Skips none h rest =
    unfold skip_transaction skip_inputs skip_outputs in
    Skips-then (discard 4) _ _ _ (put_le-Skips 4 0)
      (Skips-count 0 _ _ (omega arith) (Skips-count 0 _ _ (omega arith) (put_le-Skips 4 0))) rest
coinbase-Skips (some tx) h rest = skip_transaction-serialize_tx tx rest (h tx refl)

pub length-serialize_block_header :
    (h : BlockHeader)
    → length h.prev_block ≡ 32
    → length h.merkle_root ≡ 32
    → length (serialize_block_header h) ≡ 80
unfolding serialize_block_header put_le
length-serialize_block_header h p m = omega (
  arith,
  length-append h.prev_block
      (h.merkle_root ++ (put_le 4 h.timestamp ++ (put_le 4 h.bits ++ put_le 4 h.nonce))),
  length-append h.merkle_root (put_le 4 h.timestamp ++ (put_le 4 h.bits ++ put_le 4 h.nonce)),
)

length-serialize_parent :
    (p : Option BlockHeader)
    → ((h : BlockHeader) → p ≡ some h → (length h.prev_block ≡ 32) × (length h.merkle_root ≡ 32))
    → length (serialize_parent p) ≡ 80
unfolding serialize_parent
length-serialize_parent none k = refl
length-serialize_parent (some h) k = length-serialize_block_header h (k h refl).0 (k h refl).1

regroup_branches :
    (tx hash n branch index m chain chain_index parent : Bytes)
    → tx ++ (hash ++ (n ++ (branch ++ (index ++ (m ++ (chain ++ (chain_index ++ parent)))))))
      ≡ tx ++ (hash ++ ((n ++ (branch ++ index)) ++ ((m ++ (chain ++ chain_index)) ++ parent)))
regroup_branches tx hash n branch index m chain chain_index parent = simp append_assoc

-- `skipAuxPow` passes over exactly the bytes that `AuxPow.Serialize` wrote, whatever follows them,
-- for every structure whose hashes are 32 bytes and whose lengths fit, with or without a coinbase
-- transaction and a parent header.
pub skip_aux_pow-serialize_aux_pow :
    (ap : AuxPow) (rest : Bytes)
    → AuxPowFits ap
    → skip_aux_pow (serialize_aux_pow ap ++ rest) ≡ ok (tt, rest)
unfolding skip_aux_pow serialize_aux_pow
skip_aux_pow-serialize_aux_pow ap rest fits =
    rw
      (regroup_branches (serialize_coinbase ap.coinbase_tx) ap.block_hash
        (write_var_int (length ap.merkle_branch)) (branch_bytes ap.merkle_branch)
        (put_le 4 ap.merkle_index) (write_var_int (length ap.chain_merkle_branch))
        (branch_bytes ap.chain_merkle_branch) (put_le 4 ap.chain_index)
        (serialize_parent ap.parent_block_header))
      (Skips-then skip_transaction _ _ _ (coinbase-Skips ap.coinbase_tx fits.coinbase_fits)
        (Skips-then (discard 32) _ _ _ (discard-Skips 32 ap.block_hash fits.hash_32) (
          Skips-then skip_branch _ _ _
            (branch-Skips ap.merkle_branch ap.merkle_index fits.branch_32 fits.branch_count)
            (Skips-then skip_branch _ _ _
              (branch-Skips ap.chain_merkle_branch ap.chain_index fits.chain_32 fits.chain_count)
              (discard-Skips 80 _
                (length-serialize_parent ap.parent_block_header fits.parent_fits)))))
        rest)
