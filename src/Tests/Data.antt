-- ===== src/Tests/Data.antt =====
-- Concrete values that the tests share.
use doge_lucky_mining.Common.{ℕ, ◌*◌, false, none, some, [], ◌∷◌, ◌++◌, take, replicate}
use doge_lucky_mining.Bytes.{Bytes}
use doge_lucky_mining.Hex.{codes}
use doge_lucky_mining.Block.{TxInput, TxOutput, Transaction, BlockHeader, AuxPow, Block}
use doge_lucky_mining.Mining.{ScryptMiner}
use doge_lucky_mining.Template.{Config}
use doge_lucky_mining.P2P.{P2PClient}

-- A digest that a test can evaluate: the first 32 bytes, padded with ones.
abbrev pub first_bytes : Bytes → Bytes
first_bytes b = take 32 (b ++ replicate 32 1)

abbrev pub hash_of : ℕ → Bytes
hash_of b = replicate 32 b

abbrev pub an_input : TxInput
an_input = record {
  previous_output = record { hash = hash_of 0; index = 0xffffffff };
  script_sig = 3 ∷ 1 ∷ 2 ∷ 3 ∷ [];
  sequence = 0xffffffff;
}

abbrev pub an_output : TxOutput
an_output = record { value = 10000 * 100000000; script_pub_key = 0x51 ∷ [] }

abbrev pub a_transaction : Transaction
a_transaction = record {
  version = 1;
  inputs = an_input ∷ [];
  outputs = an_output ∷ [];
  lock_time = 7;
}

abbrev pub an_aux_pow : AuxPow
an_aux_pow = record {
  coinbase_tx = some a_transaction;
  block_hash = hash_of 5;
  merkle_branch = hash_of 6 ∷ [];
  merkle_index = 0;
  chain_merkle_branch = [];
  chain_index = 0;
  parent_block_header = none;
}

-- A client with nothing synced, whose genesis hash is all nines.
abbrev pub a_client : P2PClient
a_client = record {
  network = codes "mainnet";
  port = 22556;
  magic = 0xc0 ∷ 0xc0 ∷ 0xc0 ∷ 0xc0 ∷ [];
  genesis_hash_wire = hash_of 9;
  genesis_timestamp = 1386325540;
  checkpoints = [];
  header_refresh_interval = 15000;
  connected = false;
  peer_addr = [];
  known_peers = [];
  bad_peers = [];
  seeds = codes "seed.multidoge.org" ∷ [];
  seed_bad_list = [];
  optional_peer_override = [];
  best_header = none;
  best_height = 0;
  last_non_min_difficulty_bits = 0;
  tip_parent_timestamp = 0;
  locator_hashes = [];
  last_headers_applied_at = none;
  tip_history = [];
  last_headers_req = none;
  start_locator_hash = replicate 32 0;
  start_height = 0;
  has_start_checkpoint = false;
}

-- The header with the fields that vary in the tests.
abbrev header : ℕ → Bytes → Bytes → ℕ → BlockHeader
header version prev hash height = record {
  version = version;
  prev_block = prev;
  merkle_root = hash_of 8;
  timestamp = 1386325600;
  bits = 0x1e0ffff0;
  nonce = 42;
  height = height;
  hash = hash;
}

abbrev pub first_header : BlockHeader
first_header = header 1 (hash_of 9) (1 ∷ 0 ∷ 0 ∷ 0 ∷ replicate 28 9) 1

abbrev pub second_header : BlockHeader
second_header =
    header 0x101 (1 ∷ 0 ∷ 0 ∷ 0 ∷ replicate 28 9) (1 ∷ 1 ∷ 0 ∷ 0 ∷ 1 ∷ 0 ∷ 0 ∷ 0 ∷ replicate 24 9) 2

abbrev pub a_block : Block
a_block = record {
  version = 0x620104;
  prev_block = hash_of 4;
  merkle_root = hash_of 5;
  timestamp = 1774000000;
  bits = 0x1e0ffff0;
  nonce = 0;
  aux_pow = none;
  transactions = a_transaction ∷ [];
}

-- A miner with two threads, on ranges of nonces.
abbrev pub a_miner : ScryptMiner
a_miner = record {
  max_hashes = 6;
  max_hashes_this_round = 0;
  thread_count = 2;
  nonce_search_mode = codes "sequential";
  use_stride = false;
}

abbrev pub a_config : Config
a_config = record {
  network = codes "testnet";
  payout_addr = [];
  payout_addr_testnet = [];
  payout_addr_mainnet = [];
}
