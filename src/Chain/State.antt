-- ===== src/Chain/State.antt =====
-- internal/blockchain/chain.go: the records, their accessors, and results that may fail.
use go_sim_chain.Prelude.{
  ℕ, ◌≡◌, refl, Option, none, some, Bool, true, false, List, [], nat_eq, ◌⊎◌, inl, inr,
}
use go_sim_chain.Map
use go_sim_chain.Map.{Map}
use go_sim_chain.Types.{Hash, Block, zero_hash}
use go_sim_chain.Crypto.{Digests, hash_transactions, hash_header_nonce}

pub record Reorg : Type 0 where
  pub common_ancestor : Hash
  pub removed : List Block
  pub added : List Block

pub record AddResult : Type 0 where
  pub added : Bool
  pub is_new_tip : Bool
  pub old_tip : Hash
  pub new_tip : Hash
  pub reorg : Option Reorg

pub record Blockchain : Type 0 where
  pub difficulty : ℕ
  pub blocks : Map Hash Block
  pub parent : Map Hash Hash
  pub cum_work : Map Hash ℕ
  pub height : Map Hash ℕ
  pub tip : Hash
  pub genesis : Hash
  pub orphans : Map Hash Block

-- The errors of the source, and two faults: a nil pointer that is followed (`nil_deref`) and a loop
-- that outlives its fuel (`diverged`).
pub data Error : Type 0 where
  nil_block nil_genesis unexpected_genesis marshal_failed : Error
  difficulty_mismatch height_mismatch prev_hash_mismatch timestamp_regression : Error
  tx_root_mismatch hash_mismatch pow_not_met nil_deref diverged : Error

pub data Result {ℓ} (A : Type ℓ) : Type ℓ where
  ok : A → Result A
  err : Error → Result A

infixl 5 ◌>>=◌
abbrev pub ◌>>=◌ {ℓ κ} : {A : Type ℓ} {B : Type κ} → Result A → (A → Result B) → Result B
ok a >>= f = f a
err e >>= f = err e

pub Result-cases {ℓ} :
    {A : Type ℓ} (r : Result A) → ((a : A) × (r ≡ ok a)) ⊎ ((e : Error) × (r ≡ err e))
Result-cases (ok a) = inl (a, refl)
Result-cases (err e) = inr (e, refl)

abbrev pub or_fail {ℓ} : {A : Type ℓ} → Option A → Error → Result A
or_fail none e = err e
or_fail (some a) e = ok a

abbrev pub succeeded {ℓ} : {A : Type ℓ} → Result A → Bool
succeeded (ok a) = true
succeeded (err e) = false

unfoldable pub new_blockchain : Digests → Option Block → ℕ → Result Blockchain
new_blockchain D none difficulty = err nil_genesis
new_blockchain D (some genesis) difficulty = do
  let header = record (genesis.header) { tx_root = hash_transactions D genesis.txs }
  h ← or_fail (hash_header_nonce D header genesis.nonce) marshal_failed
  ok (record {
    difficulty = difficulty;
    blocks = Map.insert h (record genesis { header = header; hash = h }) [];
    parent = Map.insert h zero_hash [];
    cum_work = Map.insert h 0 [];
    height = Map.insert h 0 [];
    tip = h;
    genesis = h;
    orphans = [];
  })

unfoldable pub block_by_hash : Blockchain → Hash → Option Block
block_by_hash bc h = Map.lookup h bc.blocks

unfoldable pub has_block : Blockchain → Hash → Bool
has_block bc h = Map.has h bc.blocks

unfoldable pub get_tip : Blockchain → Option Block
get_tip bc = Map.lookup bc.tip bc.blocks

unfoldable pub tip_height : Blockchain → ℕ
tip_height bc = Map.get_or bc.tip bc.height 0

-- `bc.cumWork[bc.tip]` is nil where the tip has no entry.
unfoldable pub tip_cum_work : Blockchain → Option ℕ
tip_cum_work bc = Map.lookup bc.tip bc.cum_work
