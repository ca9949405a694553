-- ===== src/Block.antt =====
-- block.go and the header of headers.go: transactions, blocks, merge-mining data, and their wire form.
-- An `int32`, `uint32` or `int64` field is its bit pattern, a number below 2 ^ 32 or 2 ^ 64: the
-- code only copies such fields to the wire, masks them or compares patterns. A `[32]byte` is a list
-- of 32 bytes. A pointer that may be nil is an `Option`. `binary.Write` to a `bytes.Buffer` and
-- `Serialize` of a transaction never fail, so the `error` results that are always nil are left out.
pub mod Skip
pub mod SkipLaws
pub mod Layout
use doge_lucky_mining.Common.{
  ℕ, ◌+◌, ◌^◌, ◌<◌, ◌≡◌, Option, none, some, List, [], ◌∷◌, ◌++◌, length, replicate, All,
}
use doge_lucky_mining.Bytes.{Bytes, IsHash, put_le}
use doge_lucky_mining.Wire.{write_var_int}

pub record OutPoint : Type 0 where
  pub hash : Bytes
  pub index : ℕ

pub record TxInput : Type 0 where
  pub previous_output : OutPoint
  pub script_sig : Bytes
  pub sequence : ℕ

pub record TxOutput : Type 0 where
  pub value : ℕ
  pub script_pub_key : Bytes

pub record Transaction : Type 0 where
  pub version : ℕ
  pub inputs : List TxInput
  pub outputs : List TxOutput
  pub lock_time : ℕ

pub record BlockHeader : Type 0 where
  pub version : ℕ
  pub prev_block : Bytes
  pub merkle_root : Bytes
  pub timestamp : ℕ
  pub bits : ℕ
  pub nonce : ℕ
  pub height : ℕ
  pub hash : Bytes

pub record AuxPow : Type 0 where
  pub coinbase_tx : Option Transaction
  pub block_hash : Bytes
  pub merkle_branch : List Bytes
  pub merkle_index : ℕ
  pub chain_merkle_branch : List Bytes
  pub chain_index : ℕ
  pub parent_block_header : Option BlockHeader

pub record Block : Type 0 where
  pub version : ℕ
  pub prev_block : Bytes
  pub merkle_root : Bytes
  pub timestamp : ℕ
  pub bits : ℕ
  pub nonce : ℕ
  pub aux_pow : Option AuxPow
  pub transactions : List Transaction

unfoldable pub serialize_input : TxInput → Bytes
serialize_input i =
    i.previous_output.hash
    ++ (put_le 4 i.previous_output.index
        ++ (write_var_int (length i.script_sig) ++ (i.script_sig ++ put_le 4 i.sequence)))

unfoldable pub serialize_inputs : List TxInput → Bytes
serialize_inputs [] = []
serialize_inputs (i ∷ is) = serialize_input i ++ serialize_inputs is

unfoldable pub serialize_output : TxOutput → Bytes
serialize_output o =
    put_le 8 o.value ++ (write_var_int (length o.script_pub_key) ++ o.script_pub_key)

unfoldable pub serialize_outputs : List TxOutput → Bytes
serialize_outputs [] = []
serialize_outputs (o ∷ os) = serialize_output o ++ serialize_outputs os

-- `Transaction.Serialize`
unfoldable pub serialize_tx : Transaction → Bytes
serialize_tx tx =
    put_le 4 tx.version
    ++ (write_var_int (length tx.inputs)
        ++ (serialize_inputs tx.inputs
            ++ (write_var_int (length tx.outputs)
                ++ (serialize_outputs tx.outputs ++ put_le 4 tx.lock_time))))

unfoldable pub serialize_txs : List Transaction → Bytes
serialize_txs [] = []
serialize_txs (tx ∷ txs) = serialize_tx tx ++ serialize_txs txs

-- `BlockHeader.Serialize`
unfoldable pub serialize_block_header : BlockHeader → Bytes
serialize_block_header h =
    put_le 4 h.version
    ++ (h.prev_block
        ++ (h.merkle_root ++ (put_le 4 h.timestamp ++ (put_le 4 h.bits ++ put_le 4 h.nonce))))

-- `Block.SerializeHeader`
unfoldable pub serialize_header : Block → Bytes
serialize_header b =
    put_le 4 b.version
    ++ (b.prev_block
        ++ (b.merkle_root ++ (put_le 4 b.timestamp ++ (put_le 4 b.bits ++ put_le 4 b.nonce))))

abbrev pub branch_bytes : List Bytes → Bytes
branch_bytes [] = []
branch_bytes (h ∷ hs) = h ++ branch_bytes hs

unfoldable pub serialize_coinbase : Option Transaction → Bytes
serialize_coinbase (some tx) = serialize_tx tx
serialize_coinbase none = put_le 4 0 ++ (write_var_int 0 ++ (write_var_int 0 ++ put_le 4 0))

unfoldable pub serialize_parent : Option BlockHeader → Bytes
serialize_parent (some h) = serialize_block_header h
serialize_parent none = replicate 80 0

-- `AuxPow.Serialize`
unfoldable pub serialize_aux_pow : AuxPow → Bytes
serialize_aux_pow ap =
    serialize_coinbase ap.coinbase_tx
    ++ (ap.block_hash
        ++ (write_var_int (length ap.merkle_branch)
            ++ (branch_bytes ap.merkle_branch
                ++ (put_le 4 ap.merkle_index
                    ++ (write_var_int (length ap.chain_merkle_branch)
                        ++ (branch_bytes ap.chain_merkle_branch
                            ++ (put_le 4 ap.chain_index
                                ++ serialize_parent ap.parent_block_header)))))))

unfoldable pub serialize_aux_pow_or_minimal : Option AuxPow → Bytes
serialize_aux_pow_or_minimal (some ap) = serialize_aux_pow ap
serialize_aux_pow_or_minimal none = write_var_int 0 ++ put_le 4 0

-- `Block.Serialize`, before the bytes are written as hex.
unfoldable pub serialize_block : Block → Bytes
serialize_block b =
    serialize_header b
    ++ (serialize_aux_pow_or_minimal b.aux_pow
        ++ (write_var_int (length b.transactions) ++ serialize_txs b.transactions))
