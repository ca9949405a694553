-- ===== src/Template/Block.antt =====
-- From the tip to the block that is mined.
use doge_lucky_mining.Common.{ℕ, ◌+◌, ◌/◌, ◌%◌, ◌^◌, ◌≤◌, ◌≡◌, [], ◌∷◌, ◌++◌, replicate, length}
use doge_lucky_mining.Bytes.{Bytes, put_le}
use doge_lucky_mining.Block.{BlockHeader, Block as BlockData, serialize_tx, Transaction}
use doge_lucky_mining.Difficulty.{value}
use doge_lucky_mining.Template.{Config, payout_script, payout_address}
use doge_lucky_mining.Template.Height.{Encodes}

-- A block whose only transaction creates the reward of its height.
pub record IsNext (sha256 : Bytes → Bytes) (config : Config) (tip : BlockHeader)
    (bits now extra_nonce : ℕ) (b : BlockData) : Type 0 where
  pub after_tip : b.prev_block ≡ tip.hash
  pub bits_eq : b.bits ≡ bits
  pub merge_mined : b.version / 2 ^ 8 % 2 ≡ 1
  pub version_low : b.version % 2 ^ 8 ≡ tip.version % 2 ^ 8
  pub version_high : b.version / 2 ^ 9 ≡ tip.version / 2 ^ 9
  pub time_eq : b.timestamp ≡ now % 2 ^ 32
  pub coinbase : Transaction
  pub only_coinbase : b.transactions ≡ coinbase ∷ []
  pub root : b.merkle_root ≡ sha256 (sha256 (serialize_tx coinbase))
  pub reward :
      coinbase.outputs
      ≡ record {
        value = 1000000000000;
        script_pub_key = payout_script sha256 (payout_address config);
      }
        ∷ []
  pub pushed : Bytes
  pub height_pushed : Encodes (tip.height + 1) pushed
  pub at_most_8 : length pushed ≤ 8
  pub input :
      coinbase.inputs
      ≡ record {
        previous_output = record { hash = replicate 32 0; index = 0xFFFFFFFF };
        script_sig = length pushed ∷ (pushed ++ (put_le 4 extra_nonce ++ (0 ∷ [])));
        sequence = 0xFFFFFFFF;
      }
        ∷ []
