-- ===== src/Syncer/Lanes.antt =====
-- internal/syncer/syncer.go: `enqueueBlock` and `popNextQueuedLocked`.
use go_sim_chain.Prelude.{
  List, [], ◌∷◌, ◌++◌, Option, none, some, not, ◌||◌, if◌then◌else◌, Text, nat_eq,
}
use go_sim_chain.Map
use go_sim_chain.Map.{Map}
use go_sim_chain.Types.{Hash, is_zero}
use go_sim_chain.Chain.State.{Blockchain, has_block}
use go_sim_chain.Syncer.State.{Lane, ReqKind, for_sync, for_inv, for_parent, Syncer}

-- One case of the `switch` of `enqueueBlock`.
unfoldable pub enqueue_lane : Lane → Hash → Text → Lane
enqueue_lane l h peer =
    if Map.has h l.queued
    then l
    else record { queue = l.queue ++ h ∷ []; queued = Map.insert h peer l.queued }

unfoldable pub enqueue_kind : Syncer → Hash → Text → ReqKind → Syncer
unfolding enqueue_lane
enqueue_kind s h peer for_parent = record s { parent = enqueue_lane s.parent h peer }
enqueue_kind s h peer for_sync = record s { sync = enqueue_lane s.sync h peer }
enqueue_kind s h peer for_inv = record s { inv = enqueue_lane s.inv h peer }

unfoldable pub enqueue_block : Blockchain → Syncer → Hash → Text → ReqKind → Syncer
unfolding enqueue_kind
enqueue_block bc s h peer kind =
    if not s.cfg.has_transport || (not s.cfg.has_chain || is_zero h)
    then s
    else if has_block bc h
    then s
    else if Map.has h s.inflight_blocks
    then s
    else enqueue_kind s h peer kind

-- One loop of `popNextQueuedLocked`.
unfoldable pub pop_lane : List Hash → Map Hash Text → Lane × Option (Hash × Text)
pop_lane [] queued = (record { queue = []; queued = queued }, none)
pop_lane (h ∷ q) queued = elim (Map.lookup h queued) [
  | none ↦ pop_lane q queued
  | some peer ↦ (record { queue = q; queued = Map.delete h queued }, some (h, peer))
]

-- Each pair is a loop's result and what follows it.
unfoldable pub after_inv :
    Syncer → Lane × Option (Hash × Text) → Syncer × Option (Hash × Text × ReqKind)
after_inv s (l, none) = (record s { inv = l }, none)
after_inv s (l, some (h, peer)) = (record s { inv = l }, some (h, peer, for_inv))

unfoldable pub after_sync :
    Syncer → Lane × Option (Hash × Text) → Syncer × Option (Hash × Text × ReqKind)
unfolding after_inv pop_lane
after_sync s (l, none) = after_inv (record s { sync = l }) (pop_lane s.inv.queue s.inv.queued)
after_sync s (l, some (h, peer)) = (record s { sync = l }, some (h, peer, for_sync))

unfoldable pub after_parent :
    Syncer → Lane × Option (Hash × Text) → Syncer × Option (Hash × Text × ReqKind)
unfolding after_sync pop_lane
after_parent s (l, none) =
    after_sync (record s { parent = l }) (pop_lane s.sync.queue s.sync.queued)
after_parent s (l, some (h, peer)) = (record s { parent = l }, some (h, peer, for_parent))

unfoldable pub pop_next_queued : Syncer → Syncer × Option (Hash × Text × ReqKind)
unfolding pop_lane after_parent
pop_next_queued s = after_parent s (pop_lane s.parent.queue s.parent.queued)
