-- ===== src/Syncer/Dispatch.antt =====
-- internal/syncer/syncer.go: `dispatchQueuedBlocks` and `sendGetBlocks`.
use go_sim_chain.Prelude.{
  ℕ, zero, suc, ◌+◌, ◌-◌, min, List, [], ◌∷◌, ◌++◌, Option, none, some, Bool, not, ◌||◌, leb, ◌==◌,
  if◌then◌else◌, length, Text, text_eq, nat_eq,
}
use go_sim_chain.Map
use go_sim_chain.Map.{Map}
use go_sim_chain.Types.{Hash, is_zero}
use go_sim_chain.Chain.State.{Blockchain, has_block}
use go_sim_chain.Syncer.State.{
  ReqKind, for_sync, for_inv, for_parent, Syncer, Outgoing, get_block, get_blocks, best_id,
}
use go_sim_chain.Syncer.Lanes.{pop_next_queued}

-- A request is not sent to nobody, nor to the node itself.
unfoldable pub unusable : Syncer → Text → Bool
unusable s peer = length peer == 0 || text_eq peer s.cfg.node_id

-- `len(s.inflightBlocks) < s.cfg.MaxInflightBlocks` fails.
unfoldable pub full : Syncer → Bool
full s = leb s.cfg.max_inflight_blocks (length s.inflight_blocks)

unfoldable pub start_request : Syncer → Hash → Text → ReqKind → ℕ → Syncer
start_request s h peer kind now = record s {
  inflight_blocks =
      Map.insert h
        (record { peer = peer; kind = kind; attempts = 1; deadline = now + s.cfg.sync_timeout })
        s.inflight_blocks;
}

-- A hash of the sync queue that was taken out of it returns to its front.
unfoldable pub put_back : Syncer → Hash → Text → Syncer
put_back s h peer = record s {
  sync = record { queue = h ∷ s.sync.queue; queued = Map.insert h peer s.sync.queued };
}

unfoldable pub send_get_blocks : Syncer → Text → List Hash → List Outgoing
unfolding unusable
send_get_blocks s to hashes =
    if not s.cfg.has_transport || (unusable s to || length hashes == 0)
    then []
    else get_blocks to hashes ∷ []

module _ (bc : Blockchain) where
  -- The request for one hash that was taken from a queue; `best` stands in for a peer that is missing.
  unfoldable pub request_single : Syncer → Text → ℕ → Hash → Text → ReqKind → Syncer × List Outgoing
  unfolding unusable start_request
  request_single s best now h peer kind =
      let to = if length peer == 0 then best else peer in
      if has_block bc h
      then (s, [])
      else if Map.has h s.inflight_blocks
      then (s, [])
      else if unusable s to
      then (s, [])
      else (start_request s h to kind now, get_block to h ∷ [])

  -- A round of the first loop past `popNextQueuedLocked`; `again` are the rounds that follow.
  unfoldable pub on_popped :
      Text
      → ℕ
      → (Syncer → Syncer × List Outgoing)
      → Syncer × Option (Hash × Text × ReqKind)
      → Syncer × List Outgoing
  unfolding request_single put_back
  on_popped best now again (s, none) = (s, [])
  on_popped best now again (s, some (h, peer, for_sync)) = (put_back s h peer, [])
  on_popped best now again (s, some (h, peer, for_inv)) =
      let (s', out) = request_single s best now h peer for_inv in
      let (last, outs) = again s' in (last, out ++ outs)
  on_popped best now again (s, some (h, peer, for_parent)) =
      let (s', out) = request_single s best now h peer for_parent in
      let (last, outs) = again s' in (last, out ++ outs)

  -- The first loop. Each round takes a hash from a queue, or ends.
  unfoldable pub singles_loop : ℕ → Syncer → Text → ℕ → Syncer × List Outgoing
  unfolding on_popped full
  singles_loop zero s best now = (s, [])
  singles_loop (suc rounds) s best now =
      let next = on_popped best now (λ t. singles_loop rounds t best now) (pop_next_queued s) in
      if full s then (s, []) else next

  -- The inner loop of the batches: `n` hashes from the front of `q`.
  unfoldable pub take_batch : ℕ → List Hash → Syncer → Text → ℕ → Syncer × List Hash
  unfolding start_request
  take_batch zero q s to now = (record s { sync = record (s.sync) { queue = q } }, [])
  take_batch (suc n) [] s to now = (record s { sync = record (s.sync) { queue = [] } }, [])
  take_batch (suc n) (h ∷ q) s to now =
      let s' = record s { sync = record { queue = q; queued = Map.delete h s.sync.queued } } in
      let skipped = is_zero h || (has_block bc h || Map.has h s.inflight_blocks) in
      let (last, hashes) =
        take_batch n q (if skipped then s' else start_request s' h to for_sync now) to now in
      (last, if skipped then hashes else h ∷ hashes)

  unfoldable pub batch_size : Syncer → ℕ
  batch_size s =
      min
        (min (if s.cfg.blocks_batch_size == 0 then 1 else s.cfg.blocks_batch_size)
          (s.cfg.max_inflight_blocks - length s.inflight_blocks))
        (length s.sync.queue)

  -- The loop over the batches. Each round takes at least one hash from the queue.
  unfoldable pub batches_loop : ℕ → Syncer → Text → ℕ → Syncer × List Outgoing
  unfolding full unusable take_batch batch_size send_get_blocks
  batches_loop zero s to now = (s, [])
  batches_loop (suc rounds) s to now =
      let rest : Syncer × List Outgoing =
        let (s', hashes) = take_batch (batch_size s) s.sync.queue s to now in
        let (last, outs) = batches_loop rounds s' to now in
        (last, send_get_blocks s to hashes ++ outs) in
      if full s || (length s.sync.queue == 0 || (batch_size s == 0 || unusable s to))
      then (s, [])
      else rest

  -- The last loop, over `queueInv`.
  unfoldable pub inv_loop : List Hash → Syncer → Text → ℕ → Syncer × List Outgoing
  unfolding full request_single
  inv_loop [] s best now = (s, [])
  inv_loop (h ∷ q) s best now =
      let s' = record s { inv = record { queue = q; queued = Map.delete h s.inv.queued } } in
      let (s'', out) =
        if is_zero h
        then (s', [])
        else request_single s' best now h (Map.get_or h s.inv.queued []) for_inv in
      let (last, outs) = inv_loop q s'' best now in if full s then (s, []) else (last, out ++ outs)

  unfoldable pub dispatch_queued_blocks : Syncer → ℕ → Syncer × List Outgoing
  unfolding singles_loop batches_loop inv_loop
  dispatch_queued_blocks s now =
      let best = best_id s.peers now in
      let rounds = suc (length s.parent.queue + (length s.sync.queue + length s.inv.queue)) in
      let (s1, singles) = singles_loop rounds s best now in
      let to = if length s1.sync_peer == 0 then best else s1.sync_peer in
      let (s2, batches) = batches_loop (length s1.sync.queue) s1 to now in
      let (s3, invs) = inv_loop s2.inv.queue s2 best now in
      if not s.cfg.has_transport || not s.cfg.has_chain
      then (s, [])
      else (s3, (singles ++ invs) ++ batches)
