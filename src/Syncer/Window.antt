-- ===== src/Syncer/Window.antt =====
-- `dispatchQueuedBlocks` keeps the invariant: it fills the window and no more.
use go_sim_chain.Prelude.{
  ℕ, zero, suc, ◌+◌, ◌≤◌, ◌<◌, ◌≡◌, refl, sym, ◌∙◌, ap, subst, ◌⊎◌, inl, inr, List, Option, none,
  some, true, false, arith, ◌==◌, if◌then◌else◌, length, Text, nat_eq, Bool-cases, if_either,
}
use go_sim_chain.Map
use go_sim_chain.Map.{Map}
use go_sim_chain.Types.{Hash}
use go_sim_chain.Chain.State.{Blockchain, has_block}
use go_sim_chain.Syncer.State.{
  Config, Lane, ReqKind, for_sync, for_inv, for_parent, Syncer, Outgoing,
}
use go_sim_chain.Syncer.Lanes.{pop_lane, after_inv, after_sync, after_parent, pop_next_queued}
use go_sim_chain.Syncer.Dispatch.{
  full, unusable, start_request, put_back, request_single, on_popped, singles_loop,
}
use go_sim_chain.Syncer.Sound.{
  IsLane, IsSound, pop_lane_cases, front-IsLane, back-IsLane, IsWindow-insert,
}

-- Changes of the queues alone.
pub with_lanes :
    (c : Config) (s : Syncer) (p q r : Lane)
    → IsSound c s
    → IsLane p
    → IsLane q
    → IsLane r
    → IsSound c (record s { parent = p; sync = q; inv = r })
with_lanes c s p q r v vp vq vr = record {
  settings = v.settings;
  limit = v.limit;
  window = v.window;
  parents = vp;
  syncs = vq;
  invs = vr;
}

abbrev pub waiting : Syncer → ℕ
waiting s = length s.parent.queue + (length s.sync.queue + length s.inv.queue)

-- What `popNextQueuedLocked` leaves of `s`: nothing; or the queues with a hash less; or, once the hash
-- is put back, the queues as they were, where no parent waits.
abbrev pub Popped : Config → Syncer → Syncer × Option (Hash × Text × ReqKind) → Type 0
Popped c s (s', none) = IsSound c s' × (s'.inflight_blocks ≡ s.inflight_blocks) × (waiting s' ≡ 0)
Popped c s (s', some (h, peer, for_parent)) =
    IsSound c s' × (s'.inflight_blocks ≡ s.inflight_blocks) × (waiting s' < waiting s)
Popped c s (s', some (h, peer, for_inv)) =
    IsSound c s' × (s'.inflight_blocks ≡ s.inflight_blocks) × (waiting s' < waiting s)
Popped c s (s', some (h, peer, for_sync)) =
    IsSound c (put_back s' h peer) × (length s'.parent.queue ≡ 0)

-- What a request may change: the requests in flight, which do not become fewer.
pub record Requested (c : Config) (s t : Syncer) : Type 0 where
  pub sound : IsSound c t
  pub same_parent : t.parent ≡ s.parent
  pub same_sync : t.sync ≡ s.sync
  pub same_inv : t.inv ≡ s.inv
  pub same_peer : t.sync_peer ≡ s.sync_peer
  pub grows : length s.inflight_blocks ≤ length t.inflight_blocks

module _ (c : Config) (s : Syncer) (v : IsSound c s) where
  pub unchanged_Requested : Requested c s s
  unchanged_Requested = record {
    sound = v;
    same_parent = refl;
    same_sync = refl;
    same_inv = refl;
    same_peer = refl;
    grows = omega arith;
  }

  pub start_request-Requested :
      (h : Hash) (peer : Text) (kind : ReqKind) (now : ℕ)
      → full s ≡ false
      → Requested c s (start_request s h peer kind now)
  unfolding start_request full
  start_request-Requested h peer kind now room = record {
    sound = record {
      settings = v.settings;
      limit = v.limit;
      window =
          IsWindow-insert c s.inflight_blocks h _ v.limit v.window (ground (arith, v.settings))
            refl;
      parents = v.parents;
      syncs = v.syncs;
      invs = v.invs;
    };
    same_parent = refl;
    same_sync = refl;
    same_inv = refl;
    same_peer = refl;
    grows = ground (
      arith,
      Map.length-insert h
          (record { peer = peer; kind = kind; attempts = 1; deadline = now + s.cfg.sync_timeout })
          s.inflight_blocks,
    );
  }

  pub request_single-Requested :
      (bc : Blockchain) (best : Text) (now : ℕ) (h : Hash) (peer : Text) (kind : ReqKind)
      → full s ≡ false
      → Requested c s (request_single bc s best now h peer kind).0
  unfolding request_single
  request_single-Requested bc best now h peer kind room =
      let to = if length peer == 0 then best else peer in
      let P = λ (r : Syncer × List Outgoing). Requested c s r.0 in
      if_either P (has_block bc h) unchanged_Requested (
        if_either P (Map.has h s.inflight_blocks) unchanged_Requested (
          if_either P (unusable s to) unchanged_Requested
            (start_request-Requested h to kind now room)))

module _ (c : Config) (s : Syncer) (v : IsSound c s) where
  after_inv-Popped :
      (p q : Lane)
      → IsLane p
      → IsLane q
      → length p.queue ≡ 0
      → length q.queue ≡ 0
      → Popped c s
          (after_inv (record s { parent = p; sync = q }) (pop_lane s.inv.queue s.inv.queued))
  unfolding after_inv
  after_inv-Popped p q vp vq ep eq =
      pop_lane_cases (λ r. Popped c s (after_inv (record s { parent = p; sync = q }) r)) s.inv.queue
        s.inv.queued v.invs (λ e l. (with_lanes c s p q _ v vp vq l, refl, omega arith))
        (λ h rest peer e l. (
          with_lanes c s p q _ v vp vq (front-IsLane h rest s.inv.queued l),
          refl,
          omega (arith, ap length e),
        ))

  after_sync-Popped :
      (p : Lane)
      → IsLane p
      → length p.queue ≡ 0
      → Popped c s (after_sync (record s { parent = p }) (pop_lane s.sync.queue s.sync.queued))
  unfolding after_sync put_back
  after_sync-Popped p vp ep =
      pop_lane_cases (λ r. Popped c s (after_sync (record s { parent = p }) r)) s.sync.queue
        s.sync.queued v.syncs (λ e l. after_inv-Popped p _ vp l ep refl)
        (λ h rest peer e l.
          (with_lanes c s p _ s.inv v vp (back-IsLane h peer rest s.sync.queued l) v.invs, ep))

  pub pop_next_queued-Popped : Popped c s (pop_next_queued s)
  unfolding pop_next_queued after_parent
  pop_next_queued-Popped =
      pop_lane_cases (λ r. Popped c s (after_parent s r)) s.parent.queue s.parent.queued v.parents
        (λ e l. after_sync-Popped _ l refl)
        (λ h rest peer e l. (
          with_lanes c s _ s.sync s.inv v (front-IsLane h rest s.parent.queued l) v.syncs v.invs,
          refl,
          omega (arith, ap length e),
        ))

-- The same window, by its size.
pub full-same :
    (c : Config) (s t : Syncer)
    → IsSound c s
    → IsSound c t
    → t.inflight_blocks ≡ s.inflight_blocks
    → full t ≡ full s
unfolding full
full-same c s t v w same = rw (v.settings, w.settings, same) refl

pub Requested-waiting : (c : Config) (s t : Syncer) → Requested c s t → waiting t ≡ waiting s
Requested-waiting c s t r = rw (r.same_parent, r.same_sync, r.same_inv) refl

-- How the first loop ends: the window is full, or no parent waits.
abbrev pub Parented : Config → Syncer × List Outgoing → Type 0
Parented c r = IsSound c r.0 × ((full r.0 ≡ true) ⊎ (length r.0.parent.queue ≡ 0))

module _ (c : Config) (bc : Blockchain) (best : Text) (now : ℕ) where
  -- A request for a hash that was popped, and the rounds that follow.
  requested-Parented :
      (again : Syncer → Syncer × List Outgoing) (s t : Syncer) (h : Hash) (peer : Text)
      (kind : ReqKind)
      → ((u : Syncer) → waiting u < waiting s → IsSound c u → Parented c (again u))
      → full s ≡ false
      → IsSound c s
      → IsSound c t
      → t.inflight_blocks ≡ s.inflight_blocks
      → waiting t < waiting s
      → Parented c (again (request_single bc t best now h peer kind).0)
  requested-Parented again s t h peer kind more room v w same less =
      let r =
        request_single-Requested c t w bc best now h peer kind (full-same c s t v w same ∙ room) in
      more _ (subst (λ n. n < waiting s) (sym (Requested-waiting c t _ r)) less) r.sound

  on_popped-Parented :
      (again : Syncer → Syncer × List Outgoing) (s : Syncer)
      → ((t : Syncer) → waiting t < waiting s → IsSound c t → Parented c (again t))
      → full s ≡ false
      → IsSound c s
      → (r : Syncer × Option (Hash × Text × ReqKind)) → Popped c s r
      → Parented c (on_popped bc best now again r)
  unfolding on_popped
  on_popped-Parented again s more room v0 (s', none) (v, same, none_wait) = (v, inr (omega arith))
  on_popped-Parented again s more room v0 (s', some (h, peer, for_sync)) (v, parents) =
      (v, inr parents)
  on_popped-Parented again s more room v0 (s', some (h, peer, for_inv)) (v, same, less) =
      requested-Parented again s s' h peer for_inv more room v0 v same less
  on_popped-Parented again s more room v0 (s', some (h, peer, for_parent)) (v, same, less) =
      requested-Parented again s s' h peer for_parent more room v0 v same less

  pub singles_loop-Parented :
      (rounds : ℕ) (s : Syncer)
      → waiting s < rounds
      → IsSound c s
      → Parented c (singles_loop bc rounds s best now)
  unfolding singles_loop
  singles_loop-Parented zero s lt v = absurd (omega arith)
  singles_loop-Parented (suc rounds) s lt v = elim (Bool-cases (full s)) [
    | inl no_room ↦ rw (no_room, singles_loop) (v, inl no_room)
    | inr room ↦
        rw (room, singles_loop)
          (on_popped-Parented (λ t. singles_loop bc rounds t best now) s
            (λ t less w. singles_loop-Parented rounds t (omega arith) w) room v (pop_next_queued s)
            (pop_next_queued-Popped c s v))
  ]
