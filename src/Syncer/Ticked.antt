-- ===== src/Syncer/Ticked.antt =====
-- `tickInflight`: what becomes of a request in flight.
use go_sim_chain.Prelude.{
  ℕ, ◌≡◌, ◌⊎◌, refl, sym, ◌∙◌, subst, inl, inr, List, [], ◌∷◌, Option, none, some, true, false, not,
  ◌||◌, arith, ◌==◌, if◌then◌else◌, length, nat_eq, if_either, if_cases,
}
use go_sim_chain.Map
use go_sim_chain.Map.{Map}
use go_sim_chain.Peer.{Manager}
use go_sim_chain.Types.{Hash}
use go_sim_chain.Syncer.State.{Config, BlockReq, Syncer, Outgoing, best_id}
use go_sim_chain.Syncer.Inflight.{is_sync, enter_backoff, Tick, visit_requests, tick_inflight}
use go_sim_chain.Syncer.Sound.{holds, Distinct, IsSound}
use go_sim_chain.Syncer.Retries.{lookup-drop_sync, started, visit_requests-IsSound}
use go_sim_chain.Syncer.Failures.{Fails, visit_requests-failed, visit_requests-noted}
use go_sim_chain.Syncer.Attempts.{
  Exhausted, Visited, visit_requests-missing, visit_requests-Visited,
}

-- `range` yields each request once.
abbrev pub IsOrder : (Map Hash BlockReq → List Hash) → Type 0
IsOrder order =
    (m : Map Hash BlockReq) → Distinct (order m) × ((h : Hash) → holds h (order m) ≡ Map.has h m)

lookup_empty : (h : Hash) (m : Map Hash BlockReq) → length m ≡ 0 → Map.lookup h m ≡ none
unfolding Map.lookup
lookup_empty h [] e = refl
lookup_empty h (x ∷ m) e = absurd (omega arith)

-- A tick has work to do where some request is in flight.
never_idle :
    (c : Config) (s : Syncer) (h : Hash) (r : BlockReq)
    → s.cfg ≡ c
    → (not c.has_transport || not c.has_chain) ≡ false
    → Map.lookup h s.inflight_blocks ≡ some r
    → (not s.cfg.has_transport || (not s.cfg.has_chain || length s.inflight_blocks == 0)) ≡ false
never_idle c s h r cfgs able found =
    rw (cfgs) (ground (arith, able, lookup_empty h s.inflight_blocks, found))

there_found :
    (h : Hash) (r : BlockReq) (m : Map Hash BlockReq) → Map.lookup h m ≡ some r → Map.has h m ≡ true
unfolding Map.has
there_found h r m e = rw (e, Map.has) refl

-- A request of the synchronisation that goes on is exhausted, which ends the synchronisation.
abbrev pub SyncFails : Config → ℕ → Syncer → Type 0
SyncFails c now s = (k : Hash) × Fails c now s k

-- What one tick makes of the request `r`. It is gone only where it is exhausted itself, or is one of
-- the synchronisation and that ends; and where that ends, none of its requests stays.
abbrev pub IsTicked : Config → ℕ → Syncer → BlockReq → Option BlockReq → Type 0
IsTicked c now s r none = Exhausted c now r ⊎ ((is_sync r.kind ≡ true) × SyncFails c now s)
IsTicked c now s r (some q) =
    Visited c now r (some q) × (is_sync r.kind ≡ true → ¬ SyncFails c now s)

kept-Ticked :
    (c : Config) (now : ℕ) (s : Syncer) (r : BlockReq) (o : Option BlockReq)
    → SyncFails c now s
    → Visited c now r o
    → IsTicked c now s r (elim o [ none ↦ none | some q ↦ if is_sync q.kind then none else some q ])
kept-Ticked c now s r none f v = inl v
kept-Ticked c now s r (some q) f v =
    if_cases (IsTicked c now s r) (is_sync q.kind)
      (λ sync. inr (subst (λ k. is_sync k ≡ true) v.0 sync, f))
      (λ other. (v, λ sync. absurd (ground (arith, v.0, other, sync))))

same-IsTicked :
    (c : Config) (now : ℕ) (s : Syncer) (r : BlockReq) (o : Option BlockReq)
    → ¬ SyncFails c now s
    → Visited c now r o
    → IsTicked c now s r o
same-IsTicked c now s r none f v = inl v
same-IsTicked c now s r (some q) f v = (v, λ _. f)

module _ (c : Config) (now : ℕ) (h : Hash) where
  final-IsTicked :
      (s : Syncer) (t : Tick) (m : Manager) (r : BlockReq)
      → Map.Unique t.syncer.inflight_blocks
      → Visited c now r (Map.lookup h t.syncer.inflight_blocks)
      → (t.sync_failed ≡ true → SyncFails c now s)
      → (SyncFails c now s → t.sync_failed ≡ true)
      → IsTicked c now s r (
          Map.lookup h
            (if t.sync_failed
              then enter_backoff (record (t.syncer) { peers = m }) now
              else record (t.syncer) { peers = m }).inflight_blocks)
  unfolding enter_backoff
  final-IsTicked s t m r u v failed fails =
      if_cases (λ (x : Syncer). IsTicked c now s r (Map.lookup h x.inflight_blocks)) t.sync_failed
        (λ e.
          subst (IsTicked c now s r) (sym (lookup-drop_sync h t.syncer.inflight_blocks u))
            (kept-Ticked c now s r (Map.lookup h t.syncer.inflight_blocks) (failed e) v))
        (λ e.
          same-IsTicked c now s r (Map.lookup h t.syncer.inflight_blocks)
            (λ f. absurd (ground (arith, fails f, e))) v)

  final_missing :
      (t : Tick) (m : Manager)
      → Map.Unique t.syncer.inflight_blocks
      → Map.lookup h t.syncer.inflight_blocks ≡ none
      → Map.lookup h
          (if t.sync_failed
            then enter_backoff (record (t.syncer) { peers = m }) now
            else record (t.syncer) { peers = m }).inflight_blocks
        ≡ none
  unfolding enter_backoff
  final_missing t m u e =
      if_either (λ (s : Syncer). Map.lookup h s.inflight_blocks ≡ none) t.sync_failed
        (rw (lookup-drop_sync h t.syncer.inflight_blocks u, e) refl) e

  module _ (order : Map Hash BlockReq → List Hash) (s : Syncer) (v : IsSound c s) where
    pub tick_inflight-missing :
        Map.lookup h s.inflight_blocks ≡ none
        → Map.lookup h (tick_inflight order s now).0.inflight_blocks ≡ none
    unfolding tick_inflight
    tick_inflight-missing e =
        let best = best_id s.peers now in
        let t = visit_requests best now (started s) (order s.inflight_blocks) in
        let w = visit_requests-IsSound c best now (started s) (order s.inflight_blocks) v in
        if_either (λ (x : Syncer × List Outgoing). Map.lookup h x.0.inflight_blocks ≡ none)
          (not s.cfg.has_transport || (not s.cfg.has_chain || length s.inflight_blocks == 0)) e
          (final_missing t _ w.window.unique
            (visit_requests-missing c best now (started s) (order s.inflight_blocks) h e))

    -- The loop ends the synchronisation exactly where a request of it is exhausted.
    SyncFails-iff :
        IsOrder order
        → (((visit_requests
                (best_id s.peers now)
                now
                (started s)
                (order s.inflight_blocks)).sync_failed
              ≡ true)
            → SyncFails c now s)
          × (SyncFails c now s
              → (visit_requests
                  (best_id s.peers now)
                  now
                  (started s)
                  (order s.inflight_blocks)).sync_failed
                ≡ true)
    SyncFails-iff lists =
        let hs = order s.inflight_blocks in
        let (d, all) = lists s.inflight_blocks in
        (
          λ e.
              elim (visit_requests-failed c (best_id s.peers now) now (started s) hs v.settings d
                e) [ inl f ↦ absurd (ground (arith, f)) | inr (k, _, f) ↦ (k, f) ],
          λ (k, f).
              visit_requests-noted c (best_id s.peers now) now (started s) hs v.settings d
                (inr (k, all k ∙ there_found k f.1 s.inflight_blocks f.2, f)),
        )

    -- One tick of a sound synchroniser that has a transport and a chain, where `range` yields each
    -- request once, makes of a request one of three things. It is gone, which is so exactly where it is
    -- past its deadline and has no attempts left, or where it is one of a synchronisation that goes on
    -- and some request of that is so. It is the same, before its deadline. Or, from its deadline on
    -- and while it has attempts left, it has one attempt more and a new deadline, SyncTimeout from now.
    pub tick_inflight-IsTicked :
        (r : BlockReq)
        → IsOrder order
        → (not c.has_transport || not c.has_chain) ≡ false
        → Map.lookup h s.inflight_blocks ≡ some r
        → IsTicked c now s r (Map.lookup h (tick_inflight order s now).0.inflight_blocks)
    unfolding tick_inflight
    tick_inflight-IsTicked r lists able found =
        let best = best_id s.peers now in
        let hs = order s.inflight_blocks in
        let t = visit_requests best now (started s) hs in
        let w = visit_requests-IsSound c best now (started s) hs v in
        if_cases
          (λ (x : Syncer × List Outgoing). IsTicked c now s r (Map.lookup h x.0.inflight_blocks))
          (not s.cfg.has_transport || (not s.cfg.has_chain || length s.inflight_blocks == 0))
          (λ e. absurd (ground (arith, e, never_idle c s h r v.settings able found)))
          (λ e.
            final-IsTicked s t _ r w.window.unique
              (visit_requests-Visited c best now (started s) hs h r v.settings
                (lists s.inflight_blocks).0
                ((lists s.inflight_blocks).1 h ∙ there_found h r s.inflight_blocks found) found)
              (SyncFails-iff lists).0 (SyncFails-iff lists).1)
