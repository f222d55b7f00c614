-- ===== src/Chain/Valid.antt =====
-- What holds of the block tree between operations: each stored block is genesis or a valid child of
-- a stored block, and the tip has the most cumulative work.
use go_sim_chain.Prelude.{ℕ, ◌+◌, ◌≤◌, ◌<◌, ◌^◌, ◌≡◌, ◌⊎◌, none, some, true, false, nat_eq}
use go_sim_chain.Prelude.Int.{ltb_ℤ}
use go_sim_chain.Map
use go_sim_chain.Types.{Hash, Block}
use go_sim_chain.Crypto.{
  Digests, hash_header_nonce, hash_transactions, meets_difficulty, work_for_difficulty,
}
use go_sim_chain.Chain.State.{Blockchain}

-- `b`, stored under `h`, is a child of the stored block `above`.
pub record IsChild (D : Digests) (bc : Blockchain) (h : Hash) (b : Block) : Type 0 where
  pub above : Block
  pub found : Map.lookup b.header.prev_hash bc.blocks ≡ some above
  pub link : Map.lookup h bc.parent ≡ some b.header.prev_hash
  pub height_step : b.header.height ≡ above.header.height + 1
  pub difficulty_same : b.header.difficulty ≡ bc.difficulty
  pub time_step : ltb_ℤ b.header.timestamp above.header.timestamp ≡ false
  pub root : hash_transactions D b.txs ≡ b.header.tx_root
  pub worked : hash_header_nonce D b.header b.nonce ≡ some h
  pub pow : meets_difficulty h bc.difficulty ≡ true
  pub before : ℕ
  pub before_found : Map.lookup b.header.prev_hash bc.cum_work ≡ some before
  pub work_step : Map.lookup h bc.cum_work ≡ some (before + work_for_difficulty bc.difficulty)

pub record IsGenesis (bc : Blockchain) (h : Hash) (b : Block) : Type 0 where
  pub here : h ≡ bc.genesis
  pub height_zero : b.header.height ≡ 0

pub record IsStored (D : Digests) (bc : Blockchain) (h : Hash) (b : Block) : Type 0 where
  pub named : b.hash ≡ h
  pub recorded : Map.lookup h bc.height ≡ some b.header.height
  pub small : b.header.height < 2 ^ 64
  pub work : ℕ
  pub weighed : Map.lookup h bc.cum_work ≡ some work
  pub origin : IsGenesis bc h b ⊎ IsChild D bc h b

-- The four maps have the same keys.
pub record IsAbsent (bc : Blockchain) (h : Hash) : Type 0 where
  pub no_parent : Map.lookup h bc.parent ≡ none
  pub no_height : Map.lookup h bc.height ≡ none
  pub no_work : Map.lookup h bc.cum_work ≡ none

pub record IsValid (D : Digests) (bc : Blockchain) : Type 0 where
  pub stored : (h : Hash) (b : Block) → Map.lookup h bc.blocks ≡ some b → IsStored D bc h b
  pub absent : (h : Hash) → Map.lookup h bc.blocks ≡ none → IsAbsent bc h
  pub genesis_at : (g : Block) × (Map.lookup bc.genesis bc.blocks ≡ some g) × (g.header.height ≡ 0)
  pub tip_block : Block
  pub tip_found : Map.lookup bc.tip bc.blocks ≡ some tip_block
  pub tip_work : ℕ
  pub tip_weighed : Map.lookup bc.tip bc.cum_work ≡ some tip_work
  pub heaviest : (h : Hash) (w : ℕ) → Map.lookup h bc.cum_work ≡ some w → w ≤ tip_work

-- `later` knows all that `bc` knows.
pub record Extends (bc later : Blockchain) : Type 0 where
  pub same_genesis : later.genesis ≡ bc.genesis
  pub same_difficulty : later.difficulty ≡ bc.difficulty
  pub blocks_kept :
      (h : Hash) (b : Block) → Map.lookup h bc.blocks ≡ some b → Map.lookup h later.blocks ≡ some b
  pub parent_kept :
      (h p : Hash) → Map.lookup h bc.parent ≡ some p → Map.lookup h later.parent ≡ some p
  pub height_kept :
      (h : Hash) (n : ℕ) → Map.lookup h bc.height ≡ some n → Map.lookup h later.height ≡ some n
  pub work_kept :
      (h : Hash) (n : ℕ) → Map.lookup h bc.cum_work ≡ some n → Map.lookup h later.cum_work ≡ some n

-- From a valid chain of tip work `best` to a later one.
pub record Advances (D : Digests) (bc : Blockchain) (best : ℕ) (later : Blockchain) : Type 0 where
  pub valid : IsValid D later
  pub extends : Extends bc later
  pub moved : ((later.tip ≡ bc.tip) × (valid.tip_work ≡ best)) ⊎ (best < valid.tip_work)
