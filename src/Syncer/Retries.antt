-- ===== src/Syncer/Retries.antt =====
-- `tickInflight`, `enterBackoff` and `resetSyncState` keep the invariant.
use go_sim_chain.Prelude.{
  ℕ, ◌+◌, ◌≤◌, ◌<◌, ◌≡◌, refl, sym, ◌∙◌, subst, inl, inr, List, [], ◌∷◌, none, some, true, false,
  not, ◌||◌, arith, leb, ltb, ◌==◌, if◌then◌else◌, length, Text, nat_eq, Option-cases, if_either,
  if_cases,
}
use go_sim_chain.Map
use go_sim_chain.Map.{Map}
use go_sim_chain.Types.{Hash}
use go_sim_chain.Peer.{Manager}
use go_sim_chain.Syncer.State.{Config, BlockReq, Syncer, Outgoing, empty_lane, best_id}
use go_sim_chain.Syncer.Inflight.{
  is_sync, drop_sync, enter_backoff, reset_sync_state, Tick, note_timeout, give_up, try_again,
  visit_request, visit_requests, tick_inflight,
}
use go_sim_chain.Syncer.Sound.{
  IsLane, IsWindow, IsSound, IsSound-fields, IsSound-window, IsWindow-replace, IsWindow-delete,
  empty_lane-IsLane,
}

-- The requests of the other kinds stay.
pub lookup-drop_sync :
    (h : Hash) (m : Map Hash BlockReq)
    → Map.Unique m
    → Map.lookup h (drop_sync m)
      ≡ elim (Map.lookup h m) [ none ↦ none | some r ↦ if is_sync r.kind then none else some r ]
unfolding drop_sync Map.lookup Map.has
lookup-drop_sync h [] u = refl
lookup-drop_sync h ((k, r) ∷ m) u = ground (arith, lookup-drop_sync h m u.1, u.0)

pub lookup-drop_sync-some :
    (h : Hash) (r : BlockReq) (m : Map Hash BlockReq)
    → Map.Unique m
    → Map.lookup h (drop_sync m) ≡ some r
    → Map.lookup h m ≡ some r
lookup-drop_sync-some h r m u e = ground (arith, lookup-drop_sync h m u, e)

length-drop_sync : (m : Map Hash BlockReq) → length (drop_sync m) ≤ length m
unfolding drop_sync
length-drop_sync [] = omega arith
length-drop_sync ((k, r) ∷ m) = ground (arith, length-drop_sync m)

drop_sync-Unique : (m : Map Hash BlockReq) → Map.Unique m → Map.Unique (drop_sync m)
unfolding drop_sync Map.has
drop_sync-Unique [] u = tt
drop_sync-Unique ((k, r) ∷ m) u =
    if_either Map.Unique (is_sync r.kind) (drop_sync-Unique m u.1)
      (ground (arith, lookup-drop_sync k m u.1, u.0), drop_sync-Unique m u.1)

pub drop_sync-IsWindow :
    (c : Config) (m : Map Hash BlockReq) → IsWindow c m → IsWindow c (drop_sync m)
drop_sync-IsWindow c m w = record {
  unique = drop_sync-Unique m w.unique;
  few = omega (arith, length-drop_sync m, w.few);
  sent = λ h r e. w.sent h r (lookup-drop_sync-some h r m w.unique e);
  tries = λ h r e. w.tries h r (lookup-drop_sync-some h r m w.unique e);
}

without_sync :
    (c : Config) (s t : Syncer)
    → IsSound c s
    → t.cfg ≡ s.cfg
    → t.inflight_blocks ≡ drop_sync s.inflight_blocks
    → t.parent ≡ s.parent
    → t.sync ≡ empty_lane
    → t.inv ≡ s.inv
    → IsSound c t
without_sync c s t v cfgs blocks parents syncs invs = record {
  settings = cfgs ∙ v.settings;
  limit = v.limit;
  window = subst (IsWindow c) (sym blocks) (drop_sync-IsWindow c s.inflight_blocks v.window);
  parents = subst IsLane (sym parents) v.parents;
  syncs = subst IsLane (sym syncs) empty_lane-IsLane;
  invs = subst IsLane (sym invs) v.invs;
}

pub enter_backoff-IsSound :
    (c : Config) (s : Syncer) (now : ℕ) → IsSound c s → IsSound c (enter_backoff s now)
unfolding enter_backoff
enter_backoff-IsSound c s now v = without_sync c s _ v refl refl refl refl refl

pub reset_sync_state-IsSound :
    (c : Config) (s : Syncer) → IsSound c s → IsSound c (reset_sync_state s)
unfolding reset_sync_state
reset_sync_state-IsSound c s v = without_sync c s _ v refl refl refl refl refl

module _ (c : Config) (best : Text) (now : ℕ) where
  note_timeout-IsSound :
      (t : Tick) (r : BlockReq) → IsSound c t.syncer → IsSound c (note_timeout t r now).syncer
  unfolding note_timeout
  note_timeout-IsSound t r v =
      if_either (λ (u : Tick). IsSound c u.syncer) (length r.peer == 0) v
        (IsSound-fields c t.syncer _ v refl refl refl refl refl)

  pub note_timeout-window :
      (t : Tick) (r : BlockReq)
      → (note_timeout t r now).syncer.inflight_blocks ≡ t.syncer.inflight_blocks
  unfolding note_timeout
  note_timeout-window t r = ground arith

  give_up-IsSound :
      (t : Tick) (h : Hash) (r : BlockReq) → IsSound c t.syncer → IsSound c (give_up t h r).syncer
  unfolding give_up
  give_up-IsSound t h r v =
      IsSound-window c t.syncer _ v (IsWindow-delete c t.syncer.inflight_blocks h v.window)

  -- What a request becomes that is sent once more.
  abbrev pub again : Syncer → BlockReq → BlockReq
  again s r = record r {
    peer = if length best == 0 then r.peer else best;
    attempts = r.attempts + 1;
    deadline = now + s.cfg.sync_timeout;
  }

  pub try_again-syncer :
      (t : Tick) (h : Hash) (r : BlockReq)
      → (try_again t h r best now).syncer ≡ record (t.syncer) {
        inflight_blocks = Map.insert h (again t.syncer r) t.syncer.inflight_blocks;
      }
  unfolding try_again
  try_again-syncer t h r = ground arith

  try_again-IsSound :
      (t : Tick) (h : Hash) (r : BlockReq)
      → IsSound c t.syncer
      → Map.has h t.syncer.inflight_blocks ≡ true
      → r.attempts < c.block_retry_limit
      → IsSound c (try_again t h r best now).syncer
  try_again-IsSound t h r v there less = subst (IsSound c) (sym (try_again-syncer t h r)) (
      IsSound-window c t.syncer _ v (
        IsWindow-replace c t.syncer.inflight_blocks h (again t.syncer r) v.window there
          (omega arith) (omega arith)))

  there-note_timeout :
      (t : Tick) (h : Hash) (r q : BlockReq)
      → Map.lookup h t.syncer.inflight_blocks ≡ some r
      → Map.has h (note_timeout t q now).syncer.inflight_blocks ≡ true
  unfolding Map.has
  there-note_timeout t h r q e = rw (note_timeout-window t q, Map.has) (rw (e) refl)

  pub visit_cases {ℓ} :
      (P : Tick → Type ℓ) (t : Tick) (h : Hash)
      → (Map.lookup h t.syncer.inflight_blocks ≡ none → P t)
      → ((r : BlockReq) → Map.lookup h t.syncer.inflight_blocks ≡ some r → now < r.deadline → P t)
      → ((r : BlockReq)
          → Map.lookup h t.syncer.inflight_blocks ≡ some r
          → r.deadline ≤ now
          → t.syncer.cfg.block_retry_limit ≤ r.attempts
          → P (give_up (note_timeout t r now) h r))
      → ((r : BlockReq)
          → Map.lookup h t.syncer.inflight_blocks ≡ some r
          → r.deadline ≤ now
          → r.attempts < t.syncer.cfg.block_retry_limit
          → P (try_again (note_timeout t r now) h r best now))
      → P (visit_request best now t h)
  unfolding visit_request
  visit_cases P t h missing early over once_more =
      elim (Option-cases (Map.lookup h t.syncer.inflight_blocks)) [
        | inl e ↦ rw (e, visit_request) (missing e)
        | inr (r, e) ↦
            rw (e, visit_request)
              (if_cases P (ltb now r.deadline) (λ lt. early r e (ground arith))
                (λ ge.
                  if_cases P (leb t.syncer.cfg.block_retry_limit r.attempts)
                    (λ le. over r e (ground arith) (ground arith))
                    (λ gt. once_more r e (ground arith) (ground arith))))
      ]

  visit_request-IsSound :
      (t : Tick) (h : Hash) → IsSound c t.syncer → IsSound c (visit_request best now t h).syncer
  visit_request-IsSound t h v =
      visit_cases (λ u. IsSound c u.syncer) t h (λ e. v) (λ r e lt. v)
        (λ r e ge over. give_up-IsSound _ h r (note_timeout-IsSound t r v))
        (λ r e ge less.
          try_again-IsSound _ h r (note_timeout-IsSound t r v) (there-note_timeout t h r r e)
            (subst (λ k. r.attempts < k.block_retry_limit) v.settings less))

  pub visit_requests-IsSound :
      (t : Tick) (hs : List Hash)
      → IsSound c t.syncer
      → IsSound c (visit_requests best now t hs).syncer
  unfolding visit_requests
  visit_requests-IsSound t [] v = v
  visit_requests-IsSound t (h ∷ hs) v =
      visit_requests-IsSound (visit_request best now t h) hs (visit_request-IsSound t h v)

failed-IsSound :
    (c : Config) (t : Tick) (m : Manager) (now : ℕ)
    → IsSound c t.syncer
    → IsSound c (
        if t.sync_failed
        then enter_backoff (record (t.syncer) { peers = m }) now
        else record (t.syncer) { peers = m })
failed-IsSound c t m now v =
    let w =
      IsSound-fields c t.syncer (record (t.syncer) { peers = m }) v refl refl refl refl refl in
    if_either (IsSound c) t.sync_failed (enter_backoff-IsSound c _ now w) w

-- The loop of `tickInflight` from its start.
abbrev pub started : Syncer → Tick
started s = record { syncer = s; sends = []; retry_sync = []; timeouts = []; sync_failed = false }

pub tick_inflight-IsSound :
    (c : Config) (order : Map Hash BlockReq → List Hash) (s : Syncer) (now : ℕ)
    → IsSound c s
    → IsSound c (tick_inflight order s now).0
unfolding tick_inflight
tick_inflight-IsSound c order s now v =
    if_either (λ (r : Syncer × List Outgoing). IsSound c r.0)
      (not s.cfg.has_transport || (not s.cfg.has_chain || length s.inflight_blocks == 0)) v
      (failed-IsSound c
        (visit_requests (best_id s.peers now) now (started s) (order s.inflight_blocks)) _ now
        (visit_requests-IsSound c (best_id s.peers now) now (started s) (order s.inflight_blocks)
          v))
