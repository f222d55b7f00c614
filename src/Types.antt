-- ===== src/Types.antt =====
-- internal/types/block.go and transaction.go: hashes, transactions, headers, blocks.
use go_sim_chain.Prelude.{ℕ, List, [], Bool, ◌==◌, Text, text}
use go_sim_chain.Prelude.Int.{ℤ, pos}

-- The 32 bytes of a hash, read as one big-endian number below 2 ^ 256.
abbrev pub Hash : Type 0
Hash = ℕ

-- `Hash{}`
abbrev pub zero_hash : Hash
zero_hash = 0

abbrev pub is_zero : Hash → Bool
is_zero h = h == 0

pub record Transaction : Type 0 where
  pub id : Text
  pub timestamp : ℤ
  pub payload : Text

pub record BlockHeader : Type 0 where
  pub height : ℕ
  pub prev_hash : Hash
  pub timestamp : ℤ
  pub difficulty : ℕ
  pub miner_id : Text
  pub tx_root : Hash

pub record Block : Type 0 where
  pub header : BlockHeader
  pub nonce : ℕ
  pub hash : Hash
  pub txs : List Transaction

pub record BlockMeta : Type 0 where
  pub header : BlockHeader
  pub nonce : ℕ
  pub hash : Hash

unfoldable pub new_genesis_block : Block
new_genesis_block = record {
  header = record {
    height = 0;
    prev_hash = zero_hash;
    timestamp = pos 0;
    difficulty = 0;
    miner_id = text "genesis";
    tx_root = zero_hash;
  };
  nonce = 0;
  hash = zero_hash;
  txs = [];
}
