-- ===== src/Tests/Blocks.antt =====
-- The theorems on the block tree at a small tree: genesis, a block above it, and a fork beside that.
use mathlib.Core.List.{Memᴰ}
use go_sim_chain.Prelude.{
  ℕ, suc, ◌+◌, ◌*◌, ◌≤◌, ◌<◌, ◌≡◌, ◌≢◌, refl, ◌⊎◌, inl, inr, List, [], ◌∷◌, some, true, arith,
  length, reverse, none, All, Bool-cases, ◌==◌, text, nat_eq,
}
use go_sim_chain.Prelude.Int.{pos, or_default}
use go_sim_chain.Map
use go_sim_chain.Map.{Map}
use go_sim_chain.Types.{Hash, Block, BlockHeader, zero_hash, new_genesis_block}
use go_sim_chain.Crypto.{
  Digests, hash_header_nonce, hash_transactions, root_preimage, joined, le_bytes, be_bytes,
  scan_byte, scan_bytes, leading_zero_bits, meets_difficulty, work_for_difficulty,
}
use go_sim_chain.Chain.State.{
  Blockchain, Reorg, ok, err, marshal_failed, new_blockchain, tip_height,
}
use go_sim_chain.Chain.Walk.{parent_of, climb, meet, segment, compute_reorg}
use go_sim_chain.Chain.Add.{
  switching, block_hash, validate_work, validate_block, switch_tip, choose_tip, store_block, attach,
  add_child, add_hashed, visit, sweep, add_block, add_block_unlocked, try_connect_orphans,
}
use go_sim_chain.Chain.Query.{locator, main_chain_hashes}
use go_sim_chain.Chain.Valid.{IsValid, Advances}
use go_sim_chain.Chain.Start.{only_genesis, only_genesis-IsValid, rooted, new_blockchain-IsValid}
use go_sim_chain.Chain.Advance.{add_block-Advances, add_block_unlocked-Advances}
use go_sim_chain.Chain.Ancestry.{IsAncestor}
use go_sim_chain.Chain.Switch.{IsReorg, compute_reorg-IsReorg}
use go_sim_chain.Chain.Report.{Reports, add_block_unlocked-Reports}
use go_sim_chain.Chain.Settle.{
  Covers, IsSettled, Completes, try_connect_orphans-IsSettled, add_block-Completes,
}
use go_sim_chain.Chain.MainChain.{LeadsBack, main_chain_hashes-LeadsBack, locator-IsAncestor}

-- A digest that tells the blocks of these tests apart.
abbrev weigh : List ℕ → Hash
weigh [] = 1
weigh (b ∷ bs) = b + 3 * weigh bs

abbrev pub digests : Digests
digests = record { sha256 = weigh; marshal_header = λ h. some (h.height ∷ []) }

abbrev pub keys : Map Hash Block → List Hash
keys [] = []
keys ((h, _) ∷ m) = h ∷ keys m

abbrev pub first_header : BlockHeader
first_header = record (new_genesis_block.header) { tx_root = 1 }

-- The tree that `NewBlockchain` makes.
abbrev pub start : Blockchain
start = only_genesis new_genesis_block first_header 19683 0

pub start-IsValid : IsValid digests start
unfolding new_genesis_block
start-IsValid = only_genesis-IsValid digests new_genesis_block first_header 19683 0 refl

abbrev pub above : Hash → ℕ → Block
above parent nonce = record {
  header = record {
    height = 1;
    prev_hash = parent;
    timestamp = pos 5;
    difficulty = 0;
    miner_id = text "a";
    tx_root = 1;
  };
  nonce = nonce;
  hash = 0;
  txs = [];
}

abbrev pub one_block : Blockchain
one_block = (add_block digests keys start (some (above 19683 7))).0

-- A fork: two blocks of height 1.
abbrev pub forked : Blockchain
forked = (add_block digests keys one_block (some (above 19683 8))).0

-- With a block whose parent, the other block of height 1, is not there yet.
abbrev child : Block
child = record {
  header = record {
    height = 2;
    prev_hash = 19708;
    timestamp = pos 6;
    difficulty = 0;
    miner_id = text "b";
    tx_root = 1;
  };
  nonce = 3;
  hash = 0;
  txs = [];
}

abbrev waiting : Blockchain
waiting = (add_block digests keys one_block (some child)).0

-- With the parent, before the child is connected.
abbrev joining : Blockchain
joining = (add_block_unlocked digests waiting (some (above 19683 8))).0

one_block-IsValid : IsValid digests one_block
one_block-IsValid =
    (add_block-Advances digests keys start start-IsValid (some (above 19683 7))).valid

pub forked-IsValid : IsValid digests forked
forked-IsValid =
    (add_block-Advances digests keys one_block one_block-IsValid (some (above 19683 8))).valid

waiting-IsValid : IsValid digests waiting
waiting-IsValid = (add_block-Advances digests keys one_block one_block-IsValid (some child)).valid

joining-IsValid : IsValid digests joining
joining-IsValid =
    (add_block_unlocked-Advances digests waiting waiting-IsValid (some (above 19683 8))).valid

keys-Covers : Covers keys
unfolding Map.lookup
keys-Covers [] k b e = absurd (ground arith)
keys-Covers ((h, c) ∷ m) k b e = elim (Bool-cases (h == k)) [
  | inl same ↦ Memᴰ.head (ground arith)
  | inr other ↦ Memᴰ.tail (keys-Covers m k b (ground arith))
]

abbrev pub stored : ℕ → Hash → Block
stored nonce h = record (above 19683 nonce) { hash = h }

add_block-Advances_example :
    Advances digests one_block one_block-IsValid.tip_work
      (add_block digests keys one_block (some (above 19683 8))).0
add_block-Advances_example =
    add_block-Advances digests keys one_block one_block-IsValid (some (above 19683 8))

pub found_seven : Map.lookup 19705 forked.blocks ≡ some (stored 7 19705)
unfolding new_genesis_block hash_header_nonce hash_transactions root_preimage joined le_bytes
    be_bytes scan_byte scan_bytes leading_zero_bits meets_difficulty work_for_difficulty parent_of
    climb meet segment compute_reorg switching block_hash validate_work validate_block switch_tip
    choose_tip store_block attach add_child add_hashed add_block_unlocked visit sweep
    try_connect_orphans add_block Map.lookup Map.insert Map.has Map.get_or Map.delete
found_seven = refl

pub found_eight : Map.lookup 19708 forked.blocks ≡ some (stored 8 19708)
unfolding new_genesis_block hash_header_nonce hash_transactions root_preimage joined le_bytes
    be_bytes scan_byte scan_bytes leading_zero_bits meets_difficulty work_for_difficulty parent_of
    climb meet segment compute_reorg switching block_hash validate_work validate_block switch_tip
    choose_tip store_block attach add_child add_hashed add_block_unlocked visit sweep
    try_connect_orphans add_block Map.lookup Map.insert Map.has Map.get_or Map.delete
found_eight = refl

pub forked_zero : Map.lookup zero_hash forked.blocks ≡ none
unfolding new_genesis_block hash_header_nonce hash_transactions root_preimage joined le_bytes
    be_bytes scan_byte scan_bytes leading_zero_bits meets_difficulty work_for_difficulty parent_of
    climb meet segment compute_reorg switching block_hash validate_work validate_block switch_tip
    choose_tip store_block attach add_child add_hashed add_block_unlocked visit sweep
    try_connect_orphans add_block Map.lookup Map.insert Map.has Map.get_or Map.delete
forked_zero = refl

compute_reorg-IsReorg_example :
    (r : Reorg) × (compute_reorg forked 19705 19708 ≡ ok (some r)) × IsReorg forked 19705 19708 r
compute_reorg-IsReorg_example =
    compute_reorg-IsReorg digests forked forked-IsValid 19705 19708 (stored 7 19705)
      (stored 8 19708) found_seven found_eight (λ e. omega arith)

add_block_unlocked-Reports_example :
    Reports one_block (add_block_unlocked digests one_block (some (above 19683 8)))
add_block_unlocked-Reports_example =
    add_block_unlocked-Reports digests one_block (some (above 19683 8)) one_block-IsValid

joining-one-orphan : length joining.orphans < 2
unfolding new_genesis_block hash_header_nonce hash_transactions root_preimage joined le_bytes
    be_bytes scan_byte scan_bytes leading_zero_bits meets_difficulty work_for_difficulty parent_of
    climb meet segment compute_reorg switching block_hash validate_work validate_block switch_tip
    choose_tip store_block attach add_child add_hashed add_block_unlocked visit sweep
    try_connect_orphans add_block Map.lookup Map.insert Map.has Map.get_or Map.delete
joining-one-orphan = omega arith

try_connect_orphans-IsSettled_example :
    ((try_connect_orphans digests keys 2 joining).1 ≡ true)
    × IsSettled (try_connect_orphans digests keys 2 joining).0
try_connect_orphans-IsSettled_example =
    try_connect_orphans-IsSettled digests keys keys-Covers 2 joining joining-IsValid
      joining-one-orphan

add_block-Completes_example :
    Completes digests keys waiting
      (some (above 19683 8))
      (add_block digests keys waiting (some (above 19683 8)))
add_block-Completes_example =
    add_block-Completes digests keys keys-Covers waiting (some (above 19683 8)) waiting-IsValid

new_blockchain-IsValid_example :
    ((new_blockchain digests (some new_genesis_block) 3 ≡ err marshal_failed)
      × (digests.marshal_header (rooted digests new_genesis_block) ≡ none))
    ⊎ ((bc : Blockchain) × (new_blockchain digests (some new_genesis_block) 3 ≡ ok bc)
        × IsValid digests bc
        × (hash_header_nonce digests (rooted digests new_genesis_block) new_genesis_block.nonce
            ≡ some bc.tip)
        × (Map.lookup bc.tip bc.blocks
            ≡ some (record new_genesis_block {
              header = rooted digests new_genesis_block;
              hash = bc.tip;
            }))
        × (bc.tip ≡ bc.genesis)
        × (bc.difficulty ≡ 3)
        × (bc.orphans ≡ []))
unfolding new_genesis_block
new_blockchain-IsValid_example = new_blockchain-IsValid digests new_genesis_block 3 refl

forked-tip : forked.tip ≢ zero_hash
unfolding new_genesis_block hash_header_nonce hash_transactions root_preimage joined le_bytes
    be_bytes scan_byte scan_bytes leading_zero_bits meets_difficulty work_for_difficulty parent_of
    climb meet segment compute_reorg switching block_hash validate_work validate_block switch_tip
    choose_tip store_block attach add_child add_hashed add_block_unlocked visit sweep
    try_connect_orphans add_block Map.lookup Map.insert Map.has Map.get_or Map.delete
forked-tip = λ e. ground arith

main_chain_hashes-LeadsBack_example :
    (hs : List Hash) × (main_chain_hashes forked ≡ ok (reverse hs))
    × LeadsBack forked forked.tip hs
    × (length hs ≡ suc (tip_height forked))
main_chain_hashes-LeadsBack_example =
    main_chain_hashes-LeadsBack digests forked forked-IsValid forked-tip

locator-IsAncestor_example :
    All (λ x. IsAncestor forked x forked.tip) (locator forked (pos 4))
    × (length (locator forked (pos 4)) ≤ or_default (pos 4) 32)
locator-IsAncestor_example = locator-IsAncestor digests forked forked-IsValid (pos 4)
