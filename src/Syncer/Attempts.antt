-- ===== src/Syncer/Attempts.antt =====
-- `tickInflight`: what becomes of each request in flight.
use go_sim_chain.Prelude.{
  ℕ, ◌+◌, ◌≤◌, ◌<◌, ◌≡◌, ◌≢◌, refl, sym, ◌∙◌, ap, subst, ◌⊎◌, inl, inr, List, [], ◌∷◌, Option, none,
  some, true, false, arith, ◌==◌, Text, nat_eq, Bool-cases, ==_iff,
}
use go_sim_chain.Map
use go_sim_chain.Map.{Map}
use go_sim_chain.Types.{Hash}
use go_sim_chain.Syncer.State.{Config, BlockReq}
use go_sim_chain.Syncer.Inflight.{
  Tick, note_timeout, give_up, try_again, visit_request, visit_requests,
}
use go_sim_chain.Syncer.Sound.{holds, Distinct}
use go_sim_chain.Syncer.Retries.{note_timeout-window, again, visit_cases}

-- A request past its deadline that has no attempts left.
abbrev pub Exhausted : Config → ℕ → BlockReq → Type 0
Exhausted c now r = (r.deadline ≤ now) × (c.block_retry_limit ≤ r.attempts)

-- What the loop over the requests makes of one: nothing, where it is exhausted; the same before its
-- deadline; the same request, sent once more, from then on.
abbrev pub Visited : Config → ℕ → BlockReq → Option BlockReq → Type 0
Visited c now r none = Exhausted c now r
Visited c now r (some q) =
    (q.kind ≡ r.kind)
    × (((now < r.deadline) × (q ≡ r))
        ⊎ ((r.deadline ≤ now)
            × (r.attempts < c.block_retry_limit)
            × (q.attempts ≡ r.attempts + 1)
            × (q.deadline ≡ now + c.sync_timeout)))

one_entry :
    (h : Hash) (q r : BlockReq) (m : Map Hash BlockReq)
    → Map.lookup h m ≡ some q
    → Map.lookup h m ≡ some r
    → q ≡ r
one_entry h q r m e e' = cc

module _ (c : Config) (best : Text) (now : ℕ) where
  over-window :
      (t : Tick) (h : Hash) (r : BlockReq)
      → (give_up (note_timeout t r now) h r).syncer.inflight_blocks
        ≡ Map.delete h t.syncer.inflight_blocks
  unfolding give_up
  over-window t h r = ap (Map.delete h) (note_timeout-window c best now t r)

  again-window :
      (t : Tick) (h : Hash) (r : BlockReq)
      → (try_again (note_timeout t r now) h r best now).syncer.inflight_blocks
        ≡ Map.insert h (again c best now t.syncer r) t.syncer.inflight_blocks
  unfolding try_again note_timeout
  again-window t h r = ground arith

  -- The entry of a key after a round that visits that key.
  visit_request_self :
      (t : Tick) (h : Hash) (r : BlockReq)
      → t.syncer.cfg ≡ c
      → Map.lookup h t.syncer.inflight_blocks ≡ some r
      → Visited c now r (Map.lookup h (visit_request best now t h).syncer.inflight_blocks)
  visit_request_self t h r cfgs found =
      visit_cases c best now (λ u. Visited c now r (Map.lookup h u.syncer.inflight_blocks)) t h
        (λ e. absurd (ground (arith, found)))
        (λ q e lt. rw (found) (
          refl,
          inl (
            subst (λ (x : BlockReq). now < x.deadline)
                (one_entry h q r t.syncer.inflight_blocks e found) lt,
            refl,
          ),
        ))
        (λ q e ge over.
          let same = one_entry h q r t.syncer.inflight_blocks e found in
          rw (over-window t h q, Map.lookup-delete_self h t.syncer.inflight_blocks)
            (
              subst (λ (x : BlockReq). x.deadline ≤ now) same ge,
              subst (λ (k : Config). k.block_retry_limit ≤ r.attempts) cfgs
                  (subst (λ (x : BlockReq). t.syncer.cfg.block_retry_limit ≤ x.attempts) same over),
            ))
        (λ q e ge less.
          let same = one_entry h q r t.syncer.inflight_blocks e found in
          rw
            (
              again-window t h q,
              Map.lookup-insert_self h (again c best now t.syncer q) t.syncer.inflight_blocks,
            )
            (
              ap (λ (x : BlockReq). x.kind) same,
              inr (
                subst (λ (x : BlockReq). x.deadline ≤ now) same ge,
                subst (λ (k : Config). r.attempts < k.block_retry_limit) cfgs
                    (subst (λ (x : BlockReq). x.attempts < t.syncer.cfg.block_retry_limit) same
                      less),
                ap (λ (x : BlockReq). x.attempts + 1) same,
                ap (λ (k : Config). now + k.sync_timeout) cfgs,
              ),
            ))

  pub visit_request-other :
      (t : Tick) (h k : Hash)
      → h ≢ k
      → Map.lookup k (visit_request best now t h).syncer.inflight_blocks
        ≡ Map.lookup k t.syncer.inflight_blocks
  visit_request-other t h k ne =
      visit_cases c best now
        (λ u. Map.lookup k u.syncer.inflight_blocks ≡ Map.lookup k t.syncer.inflight_blocks) t h
        (λ e. refl) (λ q e lt. refl)
        (λ q e ge over.
          rw
            (over-window t h q, Map.lookup-delete_ne h k t.syncer.inflight_blocks (λ e. ne (sym e)))
            refl)
        (λ q e ge less.
          rw
            (
              again-window t h q,
              Map.lookup-insert_ne h k (again c best now t.syncer q) t.syncer.inflight_blocks
                  (λ e. ne (sym e)),
            )
            refl)

  over-cfg :
      (t : Tick) (h : Hash) (r : BlockReq)
      → (give_up (note_timeout t r now) h r).syncer.cfg ≡ t.syncer.cfg
  unfolding give_up note_timeout
  over-cfg t h r = ground arith

  again-cfg :
      (t : Tick) (h : Hash) (r : BlockReq)
      → (try_again (note_timeout t r now) h r best now).syncer.cfg ≡ t.syncer.cfg
  unfolding try_again note_timeout
  again-cfg t h r = ground arith

  pub visit_request-cfg :
      (t : Tick) (h : Hash) → (visit_request best now t h).syncer.cfg ≡ t.syncer.cfg
  visit_request-cfg t h =
      visit_cases c best now (λ u. u.syncer.cfg ≡ t.syncer.cfg) t h (λ e. refl) (λ q e lt. refl)
        (λ q e ge over. over-cfg t h q) (λ q e ge less. again-cfg t h q)

  visit_request-missing :
      (t : Tick) (h k : Hash)
      → Map.lookup k t.syncer.inflight_blocks ≡ none
      → Map.lookup k (visit_request best now t h).syncer.inflight_blocks ≡ none
  visit_request-missing t h k e = elim (Bool-cases (h == k)) [
    | inl same ↦
        visit_cases c best now (λ u. Map.lookup k u.syncer.inflight_blocks ≡ none) t h (λ _. e)
          (λ q e' lt. absurd (ground (arith, e, e', same)))
          (λ q e' ge over. absurd (ground (arith, e, e', same)))
          (λ q e' ge less. absurd (ground (arith, e, e', same)))
    | inr other ↦ visit_request-other t h k (λ x. absurd (ground (arith, other))) ∙ e
  ]

  pub visit_requests-missing :
      (t : Tick) (hs : List Hash) (k : Hash)
      → Map.lookup k t.syncer.inflight_blocks ≡ none
      → Map.lookup k (visit_requests best now t hs).syncer.inflight_blocks ≡ none
  unfolding visit_requests
  visit_requests-missing t [] k e = e
  visit_requests-missing t (h ∷ hs) k e =
      visit_requests-missing (visit_request best now t h) hs k (visit_request-missing t h k e)

  visit_requests-other :
      (t : Tick) (hs : List Hash) (k : Hash)
      → holds k hs ≡ false
      → Map.lookup k (visit_requests best now t hs).syncer.inflight_blocks
        ≡ Map.lookup k t.syncer.inflight_blocks
  unfolding visit_requests
  visit_requests-other t [] k e = refl
  visit_requests-other t (h ∷ hs) k e =
      visit_requests-other (visit_request best now t h) hs k (ground arith)
      ∙ visit_request-other t h k (ground arith)

  pub visit_requests-Visited :
      (t : Tick) (hs : List Hash) (k : Hash) (r : BlockReq)
      → t.syncer.cfg ≡ c
      → Distinct hs
      → holds k hs ≡ true
      → Map.lookup k t.syncer.inflight_blocks ≡ some r
      → Visited c now r (Map.lookup k (visit_requests best now t hs).syncer.inflight_blocks)
  unfolding visit_requests
  visit_requests-Visited t [] k r cfgs d there found = absurd (ground arith)
  visit_requests-Visited t (h ∷ hs) k r cfgs d there found = elim (Bool-cases (h == k)) [
    | inl same ↦
        let eq : h ≡ k = (==_iff h k).0 same in
        let rest =
          visit_requests-other (visit_request best now t h) hs k
            (subst (λ x. holds x hs ≡ false) eq d.0) in
        subst (Visited c now r) (sym rest) (
          subst
            (λ x.
              Visited c now r (Map.lookup k (visit_request best now t x).syncer.inflight_blocks))
            (sym eq) (visit_request_self t k r cfgs found))
    | inr other ↦
        visit_requests-Visited (visit_request best now t h) hs k r (visit_request-cfg t h ∙ cfgs)
          d.1 (ground arith) (visit_request-other t h k (ground arith) ∙ found)
  ]
