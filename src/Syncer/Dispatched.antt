-- ===== src/Syncer/Dispatched.antt =====
-- `dispatchQueuedBlocks` as a whole.
use go_sim_chain.Prelude.{
  ℕ, suc, ◌≡◌, refl, ◌∙◌, ap, ◌⊎◌, inl, inr, List, true, false, not, ◌||◌, arith, ◌==◌,
  if◌then◌else◌, length, Text, nat_eq, if_cases,
}
use go_sim_chain.Chain.State.{Blockchain}
use go_sim_chain.Syncer.State.{Config, Syncer, Outgoing, best_id}
use go_sim_chain.Syncer.Dispatch.{
  full, unusable, singles_loop, batches_loop, inv_loop, dispatch_queued_blocks,
}
use go_sim_chain.Syncer.Sound.{IsSound, IsWindow}
use go_sim_chain.Syncer.Window.{waiting, singles_loop-Parented}
use go_sim_chain.Syncer.Fill.{full-Filled, Batched, batches_loop-Batched, Ended, inv_loop-Ended}

-- Nothing more can be sent: the window is full, or the queues are empty, but for the sync queue where
-- there is nobody to ask.
abbrev pub Settled : Text → Syncer → Type 0
Settled best s =
    (full s ≡ true)
    ⊎ ((length s.parent.queue ≡ 0)
        × (length s.inv.queue ≡ 0)
        × ((length s.sync.queue ≡ 0)
            ⊎ (unusable s (if length s.sync_peer == 0 then best else s.sync_peer) ≡ true)))

unusable-same :
    (c : Config) (s t : Syncer) (peer : Text)
    → s.cfg ≡ c
    → t.cfg ≡ c
    → unusable s peer ≡ unusable t peer
unfolding unusable
unusable-same c s t peer e e' = rw (e, e') refl

module _ (c : Config) (bc : Blockchain) (best : Text) where
  -- The three loops together.
  Settled-loops :
      (s1 s2 s3 : Syncer)
      → IsSound c s1
      → (full s1 ≡ true) ⊎ (length s1.parent.queue ≡ 0)
      → Batched c bc (if length s1.sync_peer == 0 then best else s1.sync_peer) 0 s1 s2
      → Ended c bc best 0 s2 s3
      → Settled best s3
  Settled-loops s1 s2 s3 v (inl no_room) (f, _) (g, _, _) =
      inl (full-Filled c s2 s3 f.sound g (full-Filled c s1 s2 v f no_room))
  Settled-loops s1 s2 s3 v (inr parents) (f, inl no_room) (g, _, _) =
      inl (full-Filled c s2 s3 f.sound g no_room)
  Settled-loops s1 s2 s3 v (inr parents) (f, inr syncs) (g, same, inl no_room) = inl no_room
  Settled-loops s1 s2 s3 v (inr parents) (f, inr (inl syncs)) (g, same, inr invs) =
      inr (rw (g.same_parent, f.same_parent) parents, invs, inl (rw same syncs))
  Settled-loops s1 s2 s3 v (inr parents) (f, inr (inr nobody)) (g, same, inr invs) = inr (
    rw (g.same_parent, f.same_parent) parents,
    invs,
    inr (
        unusable-same c s3 s2 _ g.sound.settings f.sound.settings
        ∙ (ap (λ p. unusable s2 (if length p == 0 then best else p)) (g.same_peer ∙ f.same_peer)
            ∙ nobody)),
  )

dispatch_cases {ℓ} :
    {P : Syncer → Type ℓ} (c : Config) (bc : Blockchain) (s : Syncer) (now : ℕ)
    → IsSound c s
    → ((not s.cfg.has_transport || not s.cfg.has_chain) ≡ true → P s)
    → ((not s.cfg.has_transport || not s.cfg.has_chain) ≡ false
        → (t : Syncer) → IsSound c t
        → Settled (best_id s.peers now) t
        → P t)
    → P (dispatch_queued_blocks bc s now).0
unfolding dispatch_queued_blocks
dispatch_cases {P = P} c bc s now v absent present =
    let best = best_id s.peers now in
    let r1 = singles_loop bc (suc (waiting s)) s best now in
    let (v1, left) = singles_loop-Parented c bc best now (suc (waiting s)) s (omega arith) v in
    let to = if length r1.0.sync_peer == 0 then best else r1.0.sync_peer in
    let r2 = batches_loop bc (length r1.0.sync.queue) r1.0 to now in
    let f = batches_loop-Batched c bc to now (length r1.0.sync.queue) r1.0 (omega arith) v1 in
    let r3 = inv_loop bc r2.0.inv.queue r2.0 best now in
    let g = inv_loop-Ended c bc best now r2.0.inv.queue r2.0 refl f.0.sound in
    if_cases (λ (r : Syncer × List Outgoing). P r.0)
      (not s.cfg.has_transport || not s.cfg.has_chain) absent
      (λ e. present e r3.0 g.0.sound (Settled-loops c bc best r1.0 r2.0 r3.0 v1 left f g))

pub dispatch_queued_blocks-IsSound :
    (c : Config) (bc : Blockchain) (s : Syncer) (now : ℕ)
    → IsSound c s
    → IsSound c (dispatch_queued_blocks bc s now).0
dispatch_queued_blocks-IsSound c bc s now v =
    dispatch_cases {P = IsSound c} c bc s now v (λ e. v) (λ e t w ends. w)

-- Where the transport and the chain are there and the state is sound, `dispatchQueuedBlocks` leaves the
-- window full; or it leaves no parent and no announced block in the queues, and no block of the sync
-- where there is a peer to ask. The window never holds more than MaxInflightBlocks requests.
pub dispatch_queued_blocks-Settled :
    (c : Config) (bc : Blockchain) (s : Syncer) (now : ℕ)
    → IsSound c s
    → (not s.cfg.has_transport || not s.cfg.has_chain) ≡ false
    → IsWindow c (dispatch_queued_blocks bc s now).0.inflight_blocks
      × Settled (best_id s.peers now) (dispatch_queued_blocks bc s now).0
dispatch_queued_blocks-Settled c bc s now v there =
    dispatch_cases {P = λ t. IsWindow c t.inflight_blocks × Settled (best_id s.peers now) t} c bc s
      now v (λ e. absurd (ground arith)) (λ e t w ends. (w.window, ends))
