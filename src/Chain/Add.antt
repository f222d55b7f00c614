-- ===== src/Chain/Add.antt =====
-- internal/blockchain/chain.go: `AddBlock` and what it calls. A method returns the new chain beside
-- its result; the lock makes each call one step.
use go_sim_chain.Prelude.{
  ℕ, zero, suc, ◌+◌, ◌%◌, ◌^◌, List, [], ◌∷◌, Option, none, some, Bool, true, false, not, ◌&&◌,
  ◌||◌, ltb, ◌==◌, if◌then◌else◌, length, nat_eq,
}
use go_sim_chain.Prelude.Int.{ltb_ℤ}
use go_sim_chain.Map
use go_sim_chain.Map.{Map}
use go_sim_chain.Types.{Hash, Block, is_zero}
use go_sim_chain.Crypto.{
  Digests, hash_header_nonce, hash_transactions, meets_difficulty, work_for_difficulty,
}
use go_sim_chain.Chain.State.{
  Blockchain, Reorg, AddResult, Error, Result, ok, err, nil_block, unexpected_genesis,
  marshal_failed, difficulty_mismatch, height_mismatch, prev_hash_mismatch, timestamp_regression,
  tx_root_mismatch, hash_mismatch, pow_not_met, nil_deref, diverged, succeeded,
}
use go_sim_chain.Chain.Walk.{compute_reorg}

-- `AddResult{OldTip: bc.tip, NewTip: bc.tip}`
abbrev pub unchanged : Blockchain → AddResult
unchanged bc = record {
  added = false;
  is_new_tip = false;
  old_tip = bc.tip;
  new_tip = bc.tip;
  reorg = none;
}

-- A reorg that removes nothing is a plain extension, and is reported as none.
unfoldable pub switching : Option Reorg → Option Reorg
switching none = none
switching (some r) = if length r.removed == 0 then none else some r

module _ (D : Digests) where
  -- The hash under which a block is stored: its own, or computed where it is missing.
  unfoldable pub block_hash : Block → Option Hash
  block_hash b = if is_zero b.hash then hash_header_nonce D b.header b.nonce else some b.hash

  -- The proof of work part of `validateBlockUnlocked`.
  unfoldable pub validate_work : Blockchain → Block → Hash → Option Error
  validate_work bc b h = elim (hash_header_nonce D b.header b.nonce) [
    | none ↦ some marshal_failed
    | some computed ↦
        if not (computed == h)
        then some hash_mismatch
        else if not (meets_difficulty h bc.difficulty)
        then some pow_not_met
        else none
  ]

  unfoldable pub validate_block : Blockchain → Block → Block → Hash → Option Error
  unfolding validate_work
  validate_block bc b parent h =
      if not (b.header.difficulty == bc.difficulty)
      then some difficulty_mismatch
      else if not (b.header.height == (parent.header.height + 1) % 2 ^ 64)
      then some height_mismatch
      else if not (b.header.prev_hash == parent.hash)
      then some prev_hash_mismatch
      else if ltb_ℤ b.header.timestamp parent.header.timestamp
      then some timestamp_regression
      else if not (hash_transactions D b.txs == b.header.tx_root)
      then some tx_root_mismatch
      else validate_work bc b h

-- The new tip's result; `bc` has the new tip already.
unfoldable pub switch_tip : Blockchain → Hash → Hash → Blockchain × Result AddResult
switch_tip bc old_tip h = elim (compute_reorg bc old_tip h) [
  | err e ↦ (bc, err e)
  | ok r ↦ (
    bc,
    ok (record {
      added = true;
      is_new_tip = true;
      old_tip = old_tip;
      new_tip = h;
      reorg = switching r;
    }),
  )
]

-- `bc.cumWork[h].Cmp(bc.cumWork[bc.tip]) > 0`, and what follows; `work` is the first of the two.
unfoldable pub choose_tip : Blockchain → Hash → ℕ → Blockchain × Result AddResult
unfolding switch_tip
choose_tip bc h work = elim (Map.lookup bc.tip bc.cum_work) [
  | none ↦ (bc, err nil_deref)
  | some best ↦ if ltb best work then switch_tip (record bc { tip = h }) bc.tip h else (
    bc,
    ok (record {
      added = true;
      is_new_tip = false;
      old_tip = bc.tip;
      new_tip = bc.tip;
      reorg = none;
    }),
  )
]

-- `bc.blocks[h] = stored` and the two lines below it
unfoldable pub store_block : Blockchain → Hash → Block → Blockchain
store_block bc h b = record bc {
  blocks = Map.insert h (record b { hash = h }) bc.blocks;
  parent = Map.insert h b.header.prev_hash bc.parent;
  height = Map.insert h b.header.height bc.height;
}

-- The part of `addBlockUnlocked` for a valid block that is new.
unfoldable pub attach : Blockchain → Hash → Block → Blockchain × Result AddResult
unfolding choose_tip store_block
attach bc h b = elim (Map.lookup b.header.prev_hash bc.cum_work) [
  | none ↦ (store_block bc h b, err nil_deref)
  | some before ↦
      let work = before + work_for_difficulty b.header.difficulty in
      choose_tip (record (store_block bc h b) { cum_work = Map.insert h work bc.cum_work }) h work
]

module _ (D : Digests) where
  -- `addBlockUnlocked` for a block above genesis that is not stored yet.
  unfoldable pub add_child : Blockchain → Hash → Block → Blockchain × Result AddResult
  add_child bc h b = elim (Map.lookup b.header.prev_hash bc.blocks) [
    | none ↦ (record bc { orphans = Map.insert h b bc.orphans }, ok (unchanged bc))
    | some parent ↦ elim (validate_block D bc b parent h) [
      | some e ↦ (bc, err e)
      | none ↦ attach bc h b
    ]
  ]

  unfoldable pub add_hashed : Blockchain → Hash → Block → Blockchain × Result AddResult
  unfolding add_child
  add_hashed bc h b =
      if b.header.height == 0 && not (h == bc.genesis)
      then (bc, err unexpected_genesis)
      else if Map.has h bc.blocks
      then (bc, ok (unchanged bc))
      else if ltb 0 b.header.height
      then add_child bc h b
      else (bc, ok (unchanged bc))

  unfoldable pub add_block_unlocked : Blockchain → Option Block → Blockchain × Result AddResult
  unfolding add_hashed block_hash
  add_block_unlocked bc none = (bc, err nil_block)
  add_block_unlocked bc (some b) = elim (block_hash D b) [
    | none ↦ (bc, err marshal_failed)
    | some h ↦ add_hashed bc h b
  ]

  -- `range` over a map yields the entries in any order: the order is a parameter.
  module _ (order : Map Hash Block → List Hash) where
    -- One round of `for oh, ob := range bc.orphans`; the flag is `progressed`.
    unfoldable pub visit : Blockchain × Bool → Hash → Blockchain × Bool
    visit (bc, progressed) oh = elim (Map.lookup oh bc.orphans) [
      | none ↦ (bc, progressed)
      | some ob ↦
          if not (Map.has ob.header.prev_hash bc.blocks)
          then (bc, progressed)
          else let (bc', r) =
              add_block_unlocked (record bc { orphans = Map.delete oh bc.orphans }) (some ob) in
            (bc', progressed || succeeded r)
    ]

    unfoldable pub sweep : Blockchain × Bool → List Hash → Blockchain × Bool
    unfolding visit
    sweep s [] = s
    sweep s (oh ∷ rest) = sweep (visit s oh) rest

    -- `tryConnectOrphansUnlocked`; the flag says that the loop ended within the fuel.
    unfoldable pub try_connect_orphans : ℕ → Blockchain → Blockchain × Bool
    unfolding sweep
    try_connect_orphans zero bc = (bc, false)
    try_connect_orphans (suc fuel) bc =
        let (bc', progressed) = sweep (bc, false) (order bc.orphans) in
        let rest = try_connect_orphans fuel bc' in if progressed then rest else (bc', true)

    -- Each round that progresses deletes an orphan, so one round more than orphans is enough.
    unfoldable pub add_block : Blockchain → Option Block → Blockchain × Result AddResult
    unfolding add_block_unlocked try_connect_orphans
    add_block bc b =
        let (bc', r) = add_block_unlocked bc b in
        let (done, ended) = try_connect_orphans (suc (length bc'.orphans)) bc' in
        elim r [ err e ↦ (bc', err e) | ok res ↦ (done, if ended then ok res else err diverged) ]
