-- ===== src/Syncer/Handlers.antt =====
-- internal/syncer/syncer.go: the messages that the node passes on to its `Syncer`.
use go_sim_chain.Prelude.{
  ℕ, ◌-◌, List, [], ◌∷◌, Option, none, some, Bool, true, false, not, ◌&&◌, ◌||◌, ltb, ◌==◌,
  if◌then◌else◌, length, Text, text_instance, nat_eq,
}
use go_sim_chain.Map
use go_sim_chain.Map.{Map}
use go_sim_chain.Types.{Hash, Block, BlockMeta, is_zero}
use go_sim_chain.Crypto.{Digests, hash_header_nonce, meets_difficulty}
use go_sim_chain.Chain.State.{Blockchain, has_block}
use go_sim_chain.Syncer.Metrics.{record_request}
use go_sim_chain.Syncer.State.{for_inv, for_parent, Syncer, Outgoing, get_tx, inv_tx}
use go_sim_chain.Syncer.Lanes.{enqueue_block}
use go_sim_chain.Syncer.Dispatch.{dispatch_queued_blocks}

unfoldable pub on_block_arrived : Syncer → Hash → Syncer
on_block_arrived s h =
    if is_zero h then s else record s { inflight_blocks = Map.delete h s.inflight_blocks }

-- The time of an answer, where it is one to a request in flight.
unfoldable pub note_answer : Syncer → Hash → Text → ℕ → Syncer
note_answer s h from now = elim (Map.lookup h s.inflight_blocks) [
  | none ↦ s
  | some r ↦ if length from == 0 then s else record s {
    metrics = record_request s.metrics from (r.deadline - s.cfg.sync_timeout) true now;
  }
]

module _ (D : Digests) where
  -- The hash of a block, computed where it is missing; the zero hash where that fails.
  unfoldable pub named_hash : Block → Hash
  named_hash b =
      if is_zero b.hash
      then elim (hash_header_nonce D b.header b.nonce) [ none ↦ b.hash | some h ↦ h ]
      else b.hash

  -- The block that `OnBlock` is called with, if any.
  unfoldable pub handle_block : Syncer → Option Block → Text → ℕ → Syncer × List Block
  unfolding on_block_arrived note_answer named_hash
  handle_block s none from now = (s, [])
  handle_block s (some b) from now =
      if not s.cfg.has_on_block
      then (s, [])
      else (on_block_arrived (note_answer s (named_hash b) from now) (named_hash b), b ∷ [])

  -- The loop of `HandleBlocks`. `OnBlock` changes the chain, which the loop does not read.
  unfoldable pub arrive_all : Syncer → List (Option Block) → Syncer × List Block
  unfolding on_block_arrived named_hash
  arrive_all s [] = (s, [])
  arrive_all s (none ∷ bs) = arrive_all s bs
  arrive_all s (some b ∷ bs) =
      let (s', given) = arrive_all (on_block_arrived s (named_hash b)) bs in (s', b ∷ given)

  -- A first block that is nil is followed; none stands for that fault.
  unfoldable pub handle_blocks :
      Syncer → List (Option Block) → Text → ℕ → Option (Syncer × List Block)
  unfolding arrive_all note_answer named_hash
  handle_blocks s [] from now = some (s, [])
  handle_blocks s (none ∷ bs) from now =
      if not s.cfg.has_on_block
      then some (s, [])
      else if length from == 0
      then some (arrive_all s bs)
      else none
  handle_blocks s (some b ∷ bs) from now =
      if not s.cfg.has_on_block
      then some (s, [])
      else some (arrive_all (note_answer s (named_hash b) from now) (some b ∷ bs))

  -- The cheap checks of `HandleInvBlock`.
  unfoldable pub is_plausible : Blockchain → BlockMeta → Bool
  is_plausible bc m =
      (m.header.difficulty == bc.difficulty) && elim (hash_header_nonce D m.header m.nonce) [
        | none ↦ false
        | some computed ↦ (computed == m.hash) && meets_difficulty m.hash bc.difficulty
      ]

  -- No other call comes between the requests for the parent and for the block.
  unfoldable pub handle_inv_block :
      Blockchain → Syncer → BlockMeta → Text → ℕ → Syncer × List Outgoing
  unfolding is_plausible
  handle_inv_block bc s m from now =
      let lacks_parent =
        ltb 0 m.header.height
        && (not (is_zero m.header.prev_hash) && not (has_block bc m.header.prev_hash)) in
      let s' = if lacks_parent then enqueue_block bc s m.header.prev_hash from for_parent else s in
      if not s.cfg.has_transport || not s.cfg.has_chain
      then (s, [])
      else if length from == 0 || is_zero m.hash
      then (s, [])
      else if has_block bc m.hash
      then (s, [])
      else if not (is_plausible bc m)
      then (s, [])
      else dispatch_queued_blocks bc (enqueue_block bc s' m.hash from for_inv) now

-- `has` is `cfg.HasTx(txid)`, and false where that is nil. The request is forgotten after the timeout,
-- by `expire_tx`.
unfoldable pub handle_inv_tx : Syncer → Text → Text → Bool → Syncer × List Outgoing
handle_inv_tx s txid from has =
    if not s.cfg.has_transport || (length txid == 0 || length from == 0)
    then (s, [])
    else if has
    then (s, [])
    else if Map.has txid s.inflight_tx
    then (s, [])
    else (record s { inflight_tx = Map.insert txid tt s.inflight_tx }, get_tx from txid ∷ [])

unfoldable pub expire_tx : Syncer → Text → Syncer
expire_tx s txid = record s { inflight_tx = Map.delete txid s.inflight_tx }

-- `added` is what `cfg.OnTx` returns.
unfoldable pub handle_tx : Syncer → Text → Bool → Syncer × List Outgoing
handle_tx s txid added =
    let s' = record s { inflight_tx = Map.delete txid s.inflight_tx } in
    if length txid == 0
    then (s, [])
    else if not s.cfg.has_on_tx
    then (s', [])
    else if not added || not s.cfg.has_transport
    then (s', [])
    else (s', inv_tx txid ∷ [])
