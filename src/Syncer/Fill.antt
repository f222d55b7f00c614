-- ===== src/Syncer/Fill.antt =====
-- `dispatchQueuedBlocks`: the loops past the first, and what the whole leaves to be done.
use go_sim_chain.Prelude.{
  ℕ, zero, suc, ◌+◌, ◌-◌, ◌≤◌, ◌<◌, ◌≡◌, refl, ◌∙◌, ap, subst, ◌⊎◌, inl, inr, List, [], ◌∷◌, true,
  false, ◌||◌, arith, ◌==◌, length, Text, nat_eq, if_either, if_cases,
}
use go_sim_chain.Map
use go_sim_chain.Map.{Map}
use go_sim_chain.Types.{Hash, is_zero}
use go_sim_chain.Chain.State.{Blockchain, has_block}
use go_sim_chain.Syncer.State.{Config, Lane, ReqKind, for_sync, for_inv, Syncer, Outgoing}
use go_sim_chain.Syncer.Dispatch.{
  full, unusable, start_request, request_single, take_batch, batch_size, batches_loop, inv_loop,
}
use go_sim_chain.Syncer.Sound.{IsLane, IsSound, front-IsLane}
use go_sim_chain.Syncer.Window.{
  with_lanes, Requested, start_request-Requested, request_single-Requested,
}

-- What the later loops keep: the parents that wait, and the requests in flight, which do not become
-- fewer.
pub record Filled (c : Config) (s t : Syncer) : Type 0 where
  pub sound : IsSound c t
  pub same_parent : t.parent ≡ s.parent
  pub same_peer : t.sync_peer ≡ s.sync_peer
  pub grows : length s.inflight_blocks ≤ length t.inflight_blocks

Filled-trans : (c : Config) (s t u : Syncer) → Filled c s t → Filled c t u → Filled c s u
Filled-trans c s t u a b = record {
  sound = b.sound;
  same_parent = b.same_parent ∙ a.same_parent;
  same_peer = b.same_peer ∙ a.same_peer;
  grows = omega (arith, a.grows, b.grows);
}

pub Filled-lanes :
    (c : Config) (s : Syncer) (q r : Lane)
    → IsSound c s
    → IsLane q
    → IsLane r
    → Filled c s (record s { sync = q; inv = r })
Filled-lanes c s q r v vq vr = record {
  sound = with_lanes c s s.parent q r v v.parents vq vr;
  same_parent = refl;
  same_peer = refl;
  grows = omega arith;
}

Requested-Filled : (c : Config) (s t : Syncer) → Requested c s t → Filled c s t
Requested-Filled c s t r = record {
  sound = r.sound;
  same_parent = r.same_parent;
  same_peer = r.same_peer;
  grows = r.grows;
}

pub full-Filled :
    (c : Config) (s t : Syncer) → IsSound c s → Filled c s t → full s ≡ true → full t ≡ true
unfolding full
full-Filled c s t v f e = ground (arith, v.settings, f.sound.settings, f.grows)

-- The places that the window has left.
abbrev room : Syncer → ℕ
room s = s.cfg.max_inflight_blocks - length s.inflight_blocks

full_room : (s : Syncer) → 0 < room s → full s ≡ false
unfolding full
full_room s lt = ground arith

module _ (bc : Blockchain) (to : Text) (now : ℕ) where
  -- A request takes one place at most.
  room-start_request :
      (s : Syncer) (h : Hash) (peer : Text) (kind : ReqKind)
      → room s ≤ suc (room (start_request s h peer kind now))
  unfolding start_request
  room-start_request s h peer kind = ground (
    arith,
    Map.length-insert h
        (record { peer = peer; kind = kind; attempts = 1; deadline = now + s.cfg.sync_timeout })
        s.inflight_blocks,
  )

  stops_cases :
      (s : Syncer)
      → (full s || (length s.sync.queue == 0 || (batch_size bc s == 0 || unusable s to))) ≡ true
      → (full s ≡ true) ⊎ ((length s.sync.queue ≡ 0) ⊎ (unusable s to ≡ true))
  unfolding full batch_size
  stops_cases s e = ground arith

  pub goes_on :
      (s : Syncer)
      → (full s || (length s.sync.queue == 0 || (batch_size bc s == 0 || unusable s to))) ≡ false
      → (0 < batch_size bc s) × (batch_size bc s ≤ room s) × (batch_size bc s ≤ length s.sync.queue)
  unfolding full batch_size
  goes_on s e = ground arith

module _ (c : Config) (bc : Blockchain) (to : Text) (now : ℕ) where
  abbrev pub Taken : ℕ → List Hash → Syncer → Syncer → Type 0
  Taken n q s t = Filled c s t × (t.inv ≡ s.inv) × (length t.sync.queue ≡ length q - n)

  Taken-suc :
      (n : ℕ) (h : Hash) (q : List Hash) (s t u : Syncer)
      → Filled c s t
      → t.inv ≡ s.inv
      → Taken n q t u
      → Taken (suc n) (h ∷ q) s u
  Taken-suc n h q s t u f e (g, e', l) = (Filled-trans c s t u f g, e' ∙ e, l ∙ omega arith)

  pub take_batch-Taken :
      (n : ℕ) (q : List Hash) (s : Syncer)
      → IsSound c s
      → IsLane (record { queue = q; queued = s.sync.queued })
      → n ≤ room s
      → Taken n q s (take_batch bc n q s to now).0
  unfolding take_batch
  take_batch-Taken zero q s v l le = (
    Filled-lanes c s (record { queue = q; queued = s.sync.queued }) s.inv v l v.invs,
    refl,
    omega arith,
  )
  take_batch-Taken (suc n) [] s v l le = (
    Filled-lanes c s (record { queue = []; queued = s.sync.queued }) s.inv v l v.invs,
    refl,
    omega arith,
  )
  take_batch-Taken (suc n) (h ∷ q) s v l le =
      let s' = record s { sync = record { queue = q; queued = Map.delete h s.sync.queued } } in
      let l' = front-IsLane h q s.sync.queued l in
      let f =
        Filled-lanes c s (record { queue = q; queued = Map.delete h s.sync.queued }) s.inv v l'
          v.invs in
      let r =
        start_request-Requested c s' f.sound h to for_sync now (full_room s' (omega (arith, le))) in
      let next = start_request s' h to for_sync now in
      if_either (λ u. Taken (suc n) (h ∷ q) s (take_batch bc n q u to now).0)
        (is_zero h || (has_block bc h || Map.has h s.inflight_blocks))
        (Taken-suc n h q s s' _ f refl (take_batch-Taken n q s' f.sound l' (omega (arith, le))))
        (Taken-suc n h q s next _ (Filled-trans c s s' next f (Requested-Filled c s' next r)) refl (
          take_batch-Taken n q next r.sound l'
            (omega (arith, le, room-start_request bc to now s' h to for_sync))))

  -- How the loop over the batches ends.
  abbrev pub Batched : Syncer → Syncer → Type 0
  Batched s t =
      Filled c s t × ((full t ≡ true) ⊎ ((length t.sync.queue ≡ 0) ⊎ (unusable t to ≡ true)))

  pub batches_loop-Batched :
      (rounds : ℕ) (s : Syncer)
      → length s.sync.queue ≤ rounds
      → IsSound c s
      → Batched s (batches_loop bc rounds s to now).0
  unfolding batches_loop
  batches_loop-Batched zero s le v =
      (Filled-lanes c s s.sync s.inv v v.syncs v.invs, inr (inl (omega arith)))
  batches_loop-Batched (suc rounds) s le v =
      if_cases (λ (r : Syncer × List Outgoing). Batched s r.0)
        (full s || (length s.sync.queue == 0 || (batch_size bc s == 0 || unusable s to)))
        (λ e. (Filled-lanes c s s.sync s.inv v v.syncs v.invs, stops_cases bc to now s e))
        (λ e.
          let (some_left, fits, short) = goes_on bc to now s e in
          let taken = take_batch-Taken (batch_size bc s) s.sync.queue s v v.syncs fits in
          let t = (take_batch bc (batch_size bc s) s.sync.queue s to now).0 in
          let (filled, ends) =
            batches_loop-Batched rounds t (omega (arith, taken.2)) taken.0.sound in
          (Filled-trans c s t _ taken.0 filled, ends))

  -- How the last loop ends.
  abbrev pub Ended : Syncer → Syncer → Type 0
  Ended s t = Filled c s t × (t.sync ≡ s.sync) × ((full t ≡ true) ⊎ (length t.inv.queue ≡ 0))

  Ended-trans : (s t u : Syncer) → Filled c s t → t.sync ≡ s.sync → Ended t u → Ended s u
  Ended-trans s t u f e (g, e', ends) = (Filled-trans c s t u f g, e' ∙ e, ends)

  pub inv_loop-Ended :
      (q : List Hash) (s : Syncer)
      → s.inv.queue ≡ q
      → IsSound c s
      → Ended s (inv_loop bc q s to now).0
  unfolding inv_loop
  inv_loop-Ended [] s e v = (Filled-lanes c s s.sync s.inv v v.syncs v.invs, refl, inr (rw e refl))
  inv_loop-Ended (h ∷ q) s e v =
      if_cases (λ (r : Syncer × List Outgoing). Ended s r.0) (full s)
        (λ no_room. (Filled-lanes c s s.sync s.inv v v.syncs v.invs, refl, inl no_room))
        (λ place.
          let l : Lane = record { queue = q; queued = Map.delete h s.inv.queued } in
          let s' = record s { inv = l } in
          let l' : IsLane l =
            front-IsLane h q s.inv.queued
              (subst (λ k. IsLane (record { queue = k; queued = s.inv.queued })) e v.invs) in
          let f = Filled-lanes c s s.sync l v v.syncs l' in
          let peer = Map.get_or h s.inv.queued [] in
          let r = request_single-Requested c s' f.sound bc to now h peer for_inv place in
          let t = (request_single bc s' to now h peer for_inv).0 in
          if_either (λ (x : Syncer × List Outgoing). Ended s (inv_loop bc q x.0 to now).0)
            (is_zero h) (Ended-trans s s' _ f refl (inv_loop-Ended q s' refl f.sound))
            (Ended-trans s t _ (Filled-trans c s s' t f (Requested-Filled c s' t r)) r.same_sync
              (inv_loop-Ended q t (ap (λ k. k.queue) r.same_inv) r.sound)))
