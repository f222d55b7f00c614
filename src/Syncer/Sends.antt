-- ===== src/Syncer/Sends.antt =====
-- `dispatchQueuedBlocks`: what it sends.
use go_sim_chain.Prelude.{
  ℕ, zero, suc, ◌<◌, ◌≡◌, refl, ◌∙◌, ap, subst, List, [], ◌∷◌, ◌++◌, Option, none, some, false, not,
  ◌||◌, arith, ◌==◌, if◌then◌else◌, length, Text, text_eq, nat_eq, All, All-append, if_either,
  if_cases,
}
use go_sim_chain.Map
use go_sim_chain.Map.{Map}
use go_sim_chain.Types.{Hash, is_zero}
use go_sim_chain.Chain.State.{Blockchain, has_block}
use go_sim_chain.Syncer.State.{
  Config, Lane, ReqKind, for_sync, for_inv, for_parent, Syncer, Outgoing, get_block, get_blocks,
  get_headers, get_tx, inv_tx, best_id,
}
use go_sim_chain.Syncer.Lanes.{pop_next_queued}
use go_sim_chain.Syncer.Dispatch.{
  full, unusable, request_single, on_popped, singles_loop, take_batch, batch_size, batches_loop,
  send_get_blocks, inv_loop, dispatch_queued_blocks,
}
use go_sim_chain.Syncer.Sound.{IsLane, IsSound, front-IsLane}
use go_sim_chain.Syncer.Window.{
  waiting, with_lanes, full-same, Popped, request_single-Requested, pop_next_queued-Popped,
  singles_loop-Parented,
}
use go_sim_chain.Syncer.Fill.{goes_on, take_batch-Taken, batches_loop-Batched}

-- Some other node.
abbrev pub IsOther : Config → Text → Type 0
IsOther c to = (0 < length to) × (text_eq to c.node_id ≡ false)

-- A request for blocks that the node lacks, from some other node.
abbrev pub IsProper : Config → Blockchain → Outgoing → Type 0
IsProper c bc (get_block to h) = IsOther c to × (has_block bc h ≡ false)
IsProper c bc (get_blocks to hs) =
    IsOther c to × (0 < length hs) × All (λ h. has_block bc h ≡ false) hs
IsProper c bc (get_headers _ _ _) = ⊥
IsProper c bc (get_tx _ _) = ⊥
IsProper c bc (inv_tx _) = ⊥

module _ (c : Config) (bc : Blockchain) (now : ℕ) where
  abbrev AllProper : Syncer × List Outgoing → Type 0
  AllProper r = All (IsProper c bc) r.1

  usable-IsOther : (s : Syncer) (to : Text) → s.cfg ≡ c → unusable s to ≡ false → IsOther c to
  unfolding unusable
  usable-IsOther s to same usable =
      (ground arith, subst (λ k. text_eq to k.node_id ≡ false) same (ground arith))

  request_single-AllProper :
      (s : Syncer) (best : Text) (h : Hash) (peer : Text) (kind : ReqKind)
      → s.cfg ≡ c
      → AllProper (request_single bc s best now h peer kind)
  unfolding request_single
  request_single-AllProper s best h peer kind same =
      let to = if length peer == 0 then best else peer in
      if_cases AllProper (has_block bc h) (λ _. tt)
        (λ lacks. if_either AllProper (Map.has h s.inflight_blocks) tt (
          if_cases AllProper (unusable s to) (λ _. tt)
            (λ usable. ((usable-IsOther s to same usable, lacks), tt))))

  requested-AllProper :
      (again : Syncer → Syncer × List Outgoing) (s t : Syncer) (best : Text) (h : Hash)
      (peer : Text) (kind : ReqKind)
      → ((u : Syncer) → IsSound c u → AllProper (again u))
      → full s ≡ false
      → IsSound c s
      → IsSound c t
      → t.inflight_blocks ≡ s.inflight_blocks
      → All (IsProper c bc) (
          (request_single bc t best now h peer kind).1
          ++ (again (request_single bc t best now h peer kind).0).1)
  requested-AllProper again s t best h peer kind more room v w same =
      let r =
        request_single-Requested c t w bc best now h peer kind (full-same c s t v w same ∙ room) in
      All-append (IsProper c bc) _ _ (request_single-AllProper t best h peer kind w.settings)
        (more _ r.sound)

  on_popped-AllProper :
      (again : Syncer → Syncer × List Outgoing) (s : Syncer) (best : Text)
      → ((u : Syncer) → IsSound c u → AllProper (again u))
      → full s ≡ false
      → IsSound c s
      → (r : Syncer × Option (Hash × Text × ReqKind)) → Popped c s r
      → AllProper (on_popped bc best now again r)
  unfolding on_popped
  on_popped-AllProper again s best more room v (t, none) p = tt
  on_popped-AllProper again s best more room v (t, some (h, peer, for_sync)) p = tt
  on_popped-AllProper again s best more room v (t, some (h, peer, for_inv)) (w, same, _) =
      requested-AllProper again s t best h peer for_inv more room v w same
  on_popped-AllProper again s best more room v (t, some (h, peer, for_parent)) (w, same, _) =
      requested-AllProper again s t best h peer for_parent more room v w same

  singles_loop-AllProper :
      (rounds : ℕ) (s : Syncer) (best : Text)
      → IsSound c s
      → AllProper (singles_loop bc rounds s best now)
  unfolding singles_loop
  singles_loop-AllProper zero s best v = tt
  singles_loop-AllProper (suc rounds) s best v =
      if_cases AllProper (full s) (λ _. tt)
        (λ room.
          on_popped-AllProper (λ t. singles_loop bc rounds t best now) s best
            (λ t w. singles_loop-AllProper rounds t best w) room v (pop_next_queued s)
            (pop_next_queued-Popped c s v))

  take_batch-lacks :
      (n : ℕ) (q : List Hash) (s : Syncer) (to : Text)
      → All (λ h. has_block bc h ≡ false) (take_batch bc n q s to now).1
  unfolding take_batch
  take_batch-lacks zero q s to = tt
  take_batch-lacks (suc n) [] s to = tt
  take_batch-lacks (suc n) (h ∷ q) s to =
      let ih = λ (t : Syncer). take_batch-lacks n q t to in
      if_cases (All (λ k. has_block bc k ≡ false))
        (is_zero h || (has_block bc h || Map.has h s.inflight_blocks)) (λ _. ih _)
        (λ wanted. (ground arith, ih _))

  send_get_blocks-AllProper :
      (s : Syncer) (to : Text) (hs : List Hash)
      → s.cfg ≡ c
      → All (λ h. has_block bc h ≡ false) hs
      → All (IsProper c bc) (send_get_blocks s to hs)
  unfolding send_get_blocks
  send_get_blocks-AllProper s to hs same lacks =
      if_cases (All (IsProper c bc)) (not s.cfg.has_transport || (unusable s to || length hs == 0))
        (λ _. tt)
        (λ can. ((usable-IsOther s to same (ground (arith, can)), ground (arith, can), lacks), tt))

  batches_loop-AllProper :
      (rounds : ℕ) (s : Syncer) (to : Text)
      → IsSound c s
      → AllProper (batches_loop bc rounds s to now)
  unfolding batches_loop
  batches_loop-AllProper zero s to v = tt
  batches_loop-AllProper (suc rounds) s to v =
      if_cases AllProper
        (full s || (length s.sync.queue == 0 || (batch_size bc s == 0 || unusable s to))) (λ _. tt)
        (λ e.
          let (_, fits, _) = goes_on bc to now s e in
          let taken =
            take_batch-Taken c bc to now (batch_size bc s) s.sync.queue s v v.syncs fits in
          let r = take_batch bc (batch_size bc s) s.sync.queue s to now in
          All-append (IsProper c bc) _ _
            (send_get_blocks-AllProper s to r.1 v.settings
              (take_batch-lacks (batch_size bc s) s.sync.queue s to))
            (batches_loop-AllProper rounds r.0 to taken.0.sound))

  inv_loop-AllProper :
      (q : List Hash) (s : Syncer) (best : Text)
      → s.inv.queue ≡ q
      → IsSound c s
      → AllProper (inv_loop bc q s best now)
  unfolding inv_loop
  inv_loop-AllProper [] s best e v = tt
  inv_loop-AllProper (h ∷ q) s best e v =
      if_cases AllProper (full s) (λ _. tt)
        (λ place.
          let l : Lane = record { queue = q; queued = Map.delete h s.inv.queued } in
          let s' = record s { inv = l } in
          let l' : IsLane l =
            front-IsLane h q s.inv.queued
              (subst (λ k. IsLane (record { queue = k; queued = s.inv.queued })) e v.invs) in
          let w = with_lanes c s s.parent s.sync l v v.parents v.syncs l' in
          let peer = Map.get_or h s.inv.queued [] in
          let r = request_single-Requested c s' w bc best now h peer for_inv place in
          let t = request_single bc s' best now h peer for_inv in
          if_either
            (λ (x : Syncer × List Outgoing).
              All (IsProper c bc) (x.1 ++ (inv_loop bc q x.0 best now).1))
            (is_zero h) (inv_loop-AllProper q s' best refl w)
            (All-append (IsProper c bc) t.1 _
              (request_single-AllProper s' best h peer for_inv w.settings)
              (inv_loop-AllProper q t.0 best (ap (λ k. k.queue) r.same_inv) r.sound)))

  -- A sound synchroniser that dispatches its queues sends nothing but requests for blocks that the chain
  -- lacks, each to a named peer other than the node itself.
  pub dispatch_queued_blocks-IsProper :
      (s : Syncer) → IsSound c s → All (IsProper c bc) (dispatch_queued_blocks bc s now).1
  unfolding dispatch_queued_blocks
  dispatch_queued_blocks-IsProper s v =
      let best = best_id s.peers now in
      let r1 = singles_loop bc (suc (waiting s)) s best now in
      let v1 = (singles_loop-Parented c bc best now (suc (waiting s)) s (omega arith) v).0 in
      let to = if length r1.0.sync_peer == 0 then best else r1.0.sync_peer in
      let r2 = batches_loop bc (length r1.0.sync.queue) r1.0 to now in
      let v2 =
        (batches_loop-Batched c bc to now (length r1.0.sync.queue) r1.0 (omega arith) v1).0.sound in
      let r3 = inv_loop bc r2.0.inv.queue r2.0 best now in
      if_either AllProper (not s.cfg.has_transport || not s.cfg.has_chain) tt (
        All-append (IsProper c bc) (r1.1 ++ r3.1) r2.1
          (All-append (IsProper c bc) r1.1 r3.1 (singles_loop-AllProper (suc (waiting s)) s best v)
            (inv_loop-AllProper r2.0.inv.queue r2.0 best refl v2))
          (batches_loop-AllProper (length r1.0.sync.queue) r1.0 to v1))
