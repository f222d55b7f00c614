-- ===== src/Node/Blocks.antt =====
-- internal/node/node.go: what a new block does to the node, and a round of `minerLoop`.
use go_sim_chain.Prelude.{
  ℕ, ◌+◌, ◌%◌, ◌^◌, List, [], ◌∷◌, ◌++◌, none, some, not, ◌==◌, if◌then◌else◌, length, Text,
  text_instance,
}
use go_sim_chain.Prelude.Int.{ℤ, pos}
use go_sim_chain.Map
use go_sim_chain.Map.{Map}
use go_sim_chain.Types.{Hash, Transaction, Block, BlockHeader}
use go_sim_chain.Crypto.{Digests, hash_transactions}
use go_sim_chain.Chain.State.{Blockchain, Reorg, AddResult, ok, err, tip_height}
use go_sim_chain.Chain.Add.{add_block}
use go_sim_chain.Mempool.{Mempool, return_txs, remove_by_id, pop}
use go_sim_chain.Syncer.Handlers.{named_hash}
use go_sim_chain.Node.State.{Node, Sent, announce_block, tip_changed}

-- `now` stands for every time that `Return` reads.
abbrev pub at_time : ℕ → List Transaction → List (ℕ × Transaction)
at_time now [] = []
at_time now (tx ∷ txs) = (now, tx) ∷ at_time now txs

-- The loop over `r.Removed`.
unfoldable pub return_blocks : Mempool → List Block → ℕ → Mempool
return_blocks m [] now = m
return_blocks m (b ∷ bs) now = return_blocks (return_txs m (at_time now b.txs)) bs now

-- The loops that fill `ids`.
unfoldable pub ids_of_txs : List Transaction → Map Text (Unit {0}) → Map Text (Unit {0})
ids_of_txs [] ids = ids
ids_of_txs (tx ∷ txs) ids = ids_of_txs txs (Map.insert tx.id tt ids)

unfoldable pub ids_of_blocks : List Block → Map Text (Unit {0}) → Map Text (Unit {0})
unfolding ids_of_txs
ids_of_blocks [] ids = ids
ids_of_blocks (b ∷ bs) ids = ids_of_blocks bs (ids_of_txs b.txs ids)

unfoldable pub apply_reorg : Node → Reorg → ℕ → Node
unfolding return_blocks ids_of_blocks
apply_reorg n r now = record n {
  mempool = remove_by_id (return_blocks n.mempool r.removed now) (ids_of_blocks r.added []);
}

unfoldable pub remove_txs_from_block : Node → Block → Node
unfolding ids_of_txs
remove_txs_from_block n b =
    if length b.txs == 0
    then n
    else record n { mempool = remove_by_id n.mempool (ids_of_txs b.txs []) }

-- The mempool after the chain took `b`; `res` is what `AddBlock` said.
unfoldable pub settle_mempool : Node → AddResult → Block → ℕ → Node
unfolding apply_reorg remove_txs_from_block
settle_mempool n res b now = elim res.reorg [
  | some r ↦ apply_reorg n r now
  | none ↦ if res.is_new_tip then remove_txs_from_block n b else n
]

unfoldable pub announcement : Node → Block → Hash → List Sent
announcement n b h =
    if n.has_transport
    then announce_block (record { header = b.header; nonce = b.nonce; hash = h }) ∷ []
    else []

module _ (D : Digests) (order : Map Hash Block → List Hash) where
  unfoldable pub on_new_block : Node → Block → Text → ℕ → Node × List Sent
  unfolding settle_mempool announcement
  on_new_block n b from now =
      let (chain, result) = add_block D order n.chain (some b) in
      let taken = record n { chain = chain } in
      elim result [
        | err e ↦ (taken, [])
        | ok res ↦
            let n' =
              settle_mempool (record taken { received_blocks = n.received_blocks + 1 }) res b now in
            if not res.added then (taken, []) else (
              n',
              if res.is_new_tip
                  then announcement n' b (named_hash D b)
                    ++ tip_changed from (tip_height chain) chain.tip res.reorg ∷ []
                  else [],
            )
      ]

  unfoldable pub on_new_blocks : Node → List Block → Text → ℕ → Node × List Sent
  unfolding on_new_block
  on_new_blocks n [] from now = (n, [])
  on_new_blocks n (b ∷ bs) from now =
      let (n', out) = on_new_block n b from now in
      let (last, outs) = on_new_blocks n' bs from now in (last, out ++ outs)

  -- The start of a round of `minerLoop`: the header and the transactions of a block to mine. Heights
  -- are 64 bits wide.
  unfoldable pub begin_round : Node → ℤ → Node × BlockHeader × List Transaction
  begin_round n time =
      let (mempool, txs) = pop n.mempool (pos n.max_tx_per_block) in
      (
        record n { mempool = mempool },
        record {
          height = (tip_height n.chain + 1) % 2 ^ 64;
          prev_hash = n.chain.tip;
          timestamp = time;
          difficulty = n.difficulty;
          miner_id = n.id;
          tx_root = hash_transactions D txs;
        },
        txs,
      )

  -- A nonce was found that gives the hash `h`. The node may have changed since the round began, and
  -- the chain once more, to `chain`, between the check of the tip and `AddBlock`.
  unfoldable pub found_nonce :
      Node → Blockchain → BlockHeader → ℕ → Hash → List Transaction → ℕ → Node × List Sent
  unfolding apply_reorg remove_txs_from_block announcement
  found_nonce n chain header nonce h txs now =
      let back = record n { mempool = return_txs n.mempool (at_time now txs) } in
      let b : Block = record { header = header; nonce = nonce; hash = h; txs = txs } in
      let (chain', result) = add_block D order chain (some b) in
      if not (n.chain.tip == header.prev_hash) then (back, []) else elim result [
        | err e ↦ (record back { chain = chain' }, [])
        | ok res ↦
            let taken = record n { chain = chain' } in
            let switched : Node = elim res.reorg [
              | none ↦ taken
              | some r ↦ apply_reorg taken r now
            ] in
            let settled = if res.is_new_tip then remove_txs_from_block switched b else switched in
            let n' = record settled { mined_blocks = settled.mined_blocks + 1 } in
            if not res.added then (record back { chain = chain' }, []) else (
              n',
              if res.is_new_tip
                  then tip_changed n.id (tip_height chain') chain'.tip res.reorg
                    ∷ announcement n' b h
                  else [],
            )
      ]

  -- The node stops in the middle of a round.
  unfoldable pub stop_round : Node → List Transaction → ℕ → Node
  stop_round n txs now = record n { mempool = return_txs n.mempool (at_time now txs) }
