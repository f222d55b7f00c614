-- ===== src/Syncer/Sound.antt =====
-- The invariant of a `Syncer`: the window of requests in flight, and the queues.
use go_sim_chain.Prelude.{
  ◌≤◌, ◌<◌, ◌≡◌, refl, sym, ◌∙◌, subst, inl, inr, List, [], ◌∷◌, ◌++◌, Option, none, some, Bool,
  true, false, not, ◌||◌, arith, ◌==◌, length, Text, nat_eq, Bool-cases, Option-cases, if_either,
}
use go_sim_chain.Map
use go_sim_chain.Map.{Map}
use go_sim_chain.Types.{Hash, is_zero}
use go_sim_chain.Chain.State.{Blockchain, has_block}
use go_sim_chain.Syncer.State.{
  Config, Lane, ReqKind, for_sync, for_inv, for_parent, BlockReq, Syncer, empty_lane,
}
use go_sim_chain.Syncer.Lanes.{enqueue_lane, enqueue_kind, enqueue_block, pop_lane}

abbrev pub holds : Hash → List Hash → Bool
holds h [] = false
holds h (k ∷ q) = (k == h) || holds h q

abbrev pub Distinct : List Hash → Type 0
Distinct [] = Unit {0}
Distinct (k ∷ q) = (holds k q ≡ false) × Distinct q

-- The queue holds each hash of the map once, and no other.
pub record IsLane (l : Lane) : Type 0 where
  pub distinct : Distinct l.queue
  pub same : (h : Hash) → Map.has h l.queued ≡ holds h l.queue

-- No more requests than the window has places; each was sent, and not too often.
pub record IsWindow (c : Config) (m : Map Hash BlockReq) : Type 0 where
  pub unique : Map.Unique m
  pub few : length m ≤ c.max_inflight_blocks
  pub sent : (h : Hash) (r : BlockReq) → Map.lookup h m ≡ some r → 0 < r.attempts
  pub tries : (h : Hash) (r : BlockReq) → Map.lookup h m ≡ some r → r.attempts ≤ c.block_retry_limit

pub record IsSound (c : Config) (s : Syncer) : Type 0 where
  pub settings : s.cfg ≡ c
  pub limit : 0 < c.block_retry_limit
  pub window : IsWindow c s.inflight_blocks
  pub parents : IsLane s.parent
  pub syncs : IsLane s.sync
  pub invs : IsLane s.inv

pub empty_lane-IsLane : IsLane empty_lane
unfolding Map.has Map.lookup
empty_lane-IsLane = record { distinct = tt; same = λ h. refl }

holds-append : (h k : Hash) (q : List Hash) → holds h (q ++ k ∷ []) ≡ (holds h q || (k == h))
holds-append h k [] = ground arith
holds-append h k (j ∷ q) = ground (arith, holds-append h k q)

Distinct-append :
    (k : Hash) (q : List Hash) → Distinct q → holds k q ≡ false → Distinct (q ++ k ∷ [])
Distinct-append k [] d h = (refl, tt)
Distinct-append k (j ∷ q) d h =
    (ground (arith, holds-append j k q, d.0), Distinct-append k q d.1 (ground arith))

pub enqueue_lane-IsLane :
    (l : Lane) (h : Hash) (peer : Text) → IsLane l → IsLane (enqueue_lane l h peer)
unfolding enqueue_lane
enqueue_lane-IsLane l h peer v = elim (Bool-cases (Map.has h l.queued)) [
  | inl known ↦ rw known v
  | inr new ↦ rw new (record {
    distinct = Distinct-append h l.queue v.distinct (sym (v.same h) ∙ new);
    same =
        λ k. ground (arith, Map.has-insert h k peer l.queued, holds-append k h l.queue, v.same k);
  })
]

-- The front of a queue is taken.
pub front-IsLane :
    (h : Hash) (q : List Hash) (m : Map Hash Text)
    → IsLane (record { queue = h ∷ q; queued = m })
    → IsLane (record { queue = q; queued = Map.delete h m })
front-IsLane h q m v = record {
  distinct = v.distinct.1;
  same = λ k. ground (arith, Map.has-delete h k m, v.same k, v.distinct.0);
}

-- What was taken returns.
pub back-IsLane :
    (h : Hash) (peer : Text) (q : List Hash) (m : Map Hash Text)
    → IsLane (record { queue = h ∷ q; queued = m })
    → IsLane (record { queue = h ∷ q; queued = Map.insert h peer (Map.delete h m) })
back-IsLane h peer q m v = record {
  distinct = v.distinct;
  same = λ k.
      ground
        (arith, Map.has-insert h k peer (Map.delete h m), Map.has-delete h k m, v.same k, v.same h);
}

-- A loop of `popNextQueuedLocked` finds each hash of the queue in the map, so it takes the front.
pub pop_lane_cases {ℓ} :
    (P : Lane × Option (Hash × Text) → Type ℓ) (q : List Hash) (m : Map Hash Text)
    → IsLane (record { queue = q; queued = m })
    → (q ≡ []
        → IsLane (record { queue = []; queued = m })
        → P (record { queue = []; queued = m }, none))
    → ((h : Hash) (rest : List Hash) (peer : Text)
        → q ≡ h ∷ rest
        → IsLane (record { queue = h ∷ rest; queued = m })
        → P (record { queue = rest; queued = Map.delete h m }, some (h, peer)))
    → P (pop_lane q m)
unfolding pop_lane Map.has
pop_lane_cases P [] m v empty front = empty refl v
pop_lane_cases P (h ∷ q) m v empty front = elim (Option-cases (Map.lookup h m)) [
  | inl missing ↦ absurd (ground (arith, v.same h))
  | inr (peer, found) ↦ rw (found, pop_lane) (front h q peer refl v)
]

-- A new request in flight, where the window has a place.
pub IsWindow-insert :
    (c : Config) (m : Map Hash BlockReq) (h : Hash) (r : BlockReq)
    → 0 < c.block_retry_limit
    → IsWindow c m
    → length m < c.max_inflight_blocks
    → r.attempts ≡ 1
    → IsWindow c (Map.insert h r m)
IsWindow-insert c m h r limit w room once = record {
  unique = Map.insert-Unique h r m w.unique;
  few = ground (arith, Map.length-insert h r m);
  sent = λ k q e. ground (arith, Map.lookup-insert h k r m, w.sent k q, e);
  tries = λ k q e. ground (arith, Map.lookup-insert h k r m, w.tries k q, e);
}

pub IsWindow-delete :
    (c : Config) (m : Map Hash BlockReq) (h : Hash) → IsWindow c m → IsWindow c (Map.delete h m)
IsWindow-delete c m h w = record {
  unique = Map.delete-Unique h m w.unique;
  few = omega (arith, Map.length-delete-le h m, w.few);
  sent = λ k q e. w.sent k q (Map.lookup-delete-some h k q m e);
  tries = λ k q e. w.tries k q (Map.lookup-delete-some h k q m e);
}

pub enqueue_kind-IsSound :
    (c : Config) (s : Syncer) (h : Hash) (peer : Text) (kind : ReqKind)
    → IsSound c s
    → IsSound c (enqueue_kind s h peer kind)
unfolding enqueue_kind
enqueue_kind-IsSound c s h peer for_parent v = record {
  settings = v.settings;
  limit = v.limit;
  window = v.window;
  parents = enqueue_lane-IsLane s.parent h peer v.parents;
  syncs = v.syncs;
  invs = v.invs;
}
enqueue_kind-IsSound c s h peer for_sync v = record {
  settings = v.settings;
  limit = v.limit;
  window = v.window;
  parents = v.parents;
  syncs = enqueue_lane-IsLane s.sync h peer v.syncs;
  invs = v.invs;
}
enqueue_kind-IsSound c s h peer for_inv v = record {
  settings = v.settings;
  limit = v.limit;
  window = v.window;
  parents = v.parents;
  syncs = v.syncs;
  invs = enqueue_lane-IsLane s.inv h peer v.invs;
}

pub enqueue_block-IsSound :
    (c : Config) (bc : Blockchain) (s : Syncer) (h : Hash) (peer : Text) (kind : ReqKind)
    → IsSound c s
    → IsSound c (enqueue_block bc s h peer kind)
unfolding enqueue_block
enqueue_block-IsSound c bc s h peer kind v =
    if_either (IsSound c) (not s.cfg.has_transport || (not s.cfg.has_chain || is_zero h)) v (
      if_either (IsSound c) (has_block bc h) v (
        if_either (IsSound c) (Map.has h s.inflight_blocks) v
          (enqueue_kind-IsSound c s h peer kind v)))

-- Changes of other fields.
pub IsSound-fields :
    (c : Config) (s t : Syncer)
    → IsSound c s
    → t.cfg ≡ s.cfg
    → t.inflight_blocks ≡ s.inflight_blocks
    → t.parent ≡ s.parent
    → t.sync ≡ s.sync
    → t.inv ≡ s.inv
    → IsSound c t
IsSound-fields c s t v cfgs blocks parents syncs invs = record {
  settings = cfgs ∙ v.settings;
  limit = v.limit;
  window = subst (IsWindow c) (sym blocks) v.window;
  parents = subst IsLane (sym parents) v.parents;
  syncs = subst IsLane (sym syncs) v.syncs;
  invs = subst IsLane (sym invs) v.invs;
}

pub IsSound-window :
    (c : Config) (s : Syncer) (m : Map Hash BlockReq)
    → IsSound c s
    → IsWindow c m
    → IsSound c (record s { inflight_blocks = m })
IsSound-window c s m v w = record {
  settings = v.settings;
  limit = v.limit;
  window = w;
  parents = v.parents;
  syncs = v.syncs;
  invs = v.invs;
}

-- A request that is sent once more.
pub IsWindow-replace :
    (c : Config) (m : Map Hash BlockReq) (h : Hash) (r : BlockReq)
    → IsWindow c m
    → Map.has h m ≡ true
    → 0 < r.attempts
    → r.attempts ≤ c.block_retry_limit
    → IsWindow c (Map.insert h r m)
IsWindow-replace c m h r w there some_sent not_many = record {
  unique = Map.insert-Unique h r m w.unique;
  few = ground (arith, Map.length-insert h r m, w.few);
  sent = λ k q e. ground (arith, Map.lookup-insert h k r m, w.sent k q, e);
  tries = λ k q e. ground (arith, Map.lookup-insert h k r m, w.tries k q, e);
}
