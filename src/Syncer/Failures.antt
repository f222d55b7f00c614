-- ===== src/Syncer/Failures.antt =====
-- `tickInflight`: when it ends the synchronisation.
use go_sim_chain.Prelude.{
  ℕ, ◌≤◌, ◌≡◌, ◌≢◌, refl, sym, ◌∙◌, ap, subst, ◌⊎◌, inl, inr, List, [], ◌∷◌, some, true, false,
  arith, ◌==◌, ◌||◌, ◌&&◌, Text, nat_eq, Bool-cases, ==_iff,
}
use go_sim_chain.Map
use go_sim_chain.Types.{Hash}
use go_sim_chain.Syncer.State.{Config, BlockReq, Syncer}
use go_sim_chain.Syncer.Inflight.{
  is_sync, is_syncing, Tick, note_timeout, give_up, try_again, visit_request, visit_requests,
}
use go_sim_chain.Syncer.Sound.{holds, Distinct}
use go_sim_chain.Syncer.Retries.{visit_cases}
use go_sim_chain.Syncer.Attempts.{Exhausted, visit_request-other, visit_request-cfg}

-- The request for `h` is one of the synchronisation that goes on, and it is exhausted.
abbrev pub Fails : Config → ℕ → Syncer → Hash → Type 0
Fails c now s h =
    (is_syncing s.state ≡ true)
    × (q : BlockReq) × (Map.lookup h s.inflight_blocks ≡ some q)
    × (is_sync q.kind ≡ true)
    × Exhausted c now q

module _ (c : Config) (best : Text) (now : ℕ) where
  give_up-failed :
      (t : Tick) (h : Hash) (r : BlockReq)
      → (give_up (note_timeout t r now) h r).sync_failed
        ≡ (t.sync_failed || (is_sync r.kind && is_syncing t.syncer.state))
  unfolding give_up note_timeout
  give_up-failed t h r = ground arith

  try_again-failed :
      (t : Tick) (h : Hash) (r : BlockReq)
      → (try_again (note_timeout t r now) h r best now).sync_failed ≡ t.sync_failed
  unfolding try_again note_timeout
  try_again-failed t h r = ground arith

  give_up-state :
      (t : Tick) (h : Hash) (q : BlockReq)
      → (give_up (note_timeout t q now) h q).syncer.state ≡ t.syncer.state
  unfolding give_up note_timeout
  give_up-state t h q = ground arith

  try_again-state :
      (t : Tick) (h : Hash) (q : BlockReq)
      → (try_again (note_timeout t q now) h q best now).syncer.state ≡ t.syncer.state
  unfolding try_again note_timeout
  try_again-state t h q = ground arith

  visit_request-state :
      (t : Tick) (h : Hash) → (visit_request best now t h).syncer.state ≡ t.syncer.state
  visit_request-state t h =
      visit_cases c best now (λ u. u.syncer.state ≡ t.syncer.state) t h (λ e. refl) (λ q e lt. refl)
        (λ q e ge over. give_up-state t h q) (λ q e ge less. try_again-state t h q)

  -- A round notes a failure exactly where the request that it visits fails.
  visit_request-failed :
      (t : Tick) (h : Hash)
      → t.syncer.cfg ≡ c
      → (visit_request best now t h).sync_failed ≡ true
      → (t.sync_failed ≡ true) ⊎ Fails c now t.syncer h
  visit_request-failed t h cfgs =
      visit_cases c best now
        (λ u. u.sync_failed ≡ true → (t.sync_failed ≡ true) ⊎ Fails c now t.syncer h) t h
        (λ e f. inl f) (λ q e lt f. inl f)
        (λ q e ge over f. elim (Bool-cases t.sync_failed) [
          | inl before ↦ inl before
          | inr fresh ↦
              let both : (is_sync q.kind && is_syncing t.syncer.state) ≡ true =
                ground (arith, give_up-failed t h q, f, fresh) in
              inr (
                ground (arith, both),
                q,
                e,
                ground (arith, both),
                (ge, subst (λ (k : Config). k.block_retry_limit ≤ q.attempts) cfgs over),
              )
        ])
        (λ q e ge less f. inl (sym (try_again-failed t h q) ∙ f))

  visit_request-noted :
      (t : Tick) (h : Hash)
      → t.syncer.cfg ≡ c
      → (t.sync_failed ≡ true) ⊎ Fails c now t.syncer h
      → (visit_request best now t h).sync_failed ≡ true
  visit_request-noted t h cfgs f =
      visit_cases c best now (λ u. u.sync_failed ≡ true) t h
        (λ e. elim f [ inl b ↦ b | inr (_, q, e', _, _) ↦ absurd (ground (arith, e, e')) ])
        (λ r e lt. elim f [
          | inl b ↦ b
          | inr (_, q, e', _, (due, _)) ↦ absurd (ground (arith, e, e', lt, due))
        ])
        (λ r e ge over. give_up-failed t h r ∙ elim f [
          | inl b ↦ rw b refl
          | inr (on, q, e', kind, _) ↦ ground (arith, e, e', on, kind)
        ])
        (λ r e ge less. try_again-failed t h r ∙ elim f [
          | inl b ↦ b
          | inr (_, q, e', _, (_, limit)) ↦
              absurd
                (ground (arith, e, e', less, limit, ap (λ (k : Config). k.block_retry_limit) cfgs))
        ])

  Fails-other :
      (t : Tick) (h k : Hash)
      → h ≢ k
      → Fails c now (visit_request best now t h).syncer k
      → Fails c now t.syncer k
  Fails-other t h k ne (on, q, e, kind, rest) = (
    subst (λ x. is_syncing x ≡ true) (visit_request-state t h) on,
    q,
    sym (visit_request-other c best now t h k ne) ∙ e,
    kind,
    rest,
  )

  other-Fails :
      (t : Tick) (h k : Hash)
      → h ≢ k
      → Fails c now t.syncer k
      → Fails c now (visit_request best now t h).syncer k
  other-Fails t h k ne (on, q, e, kind, rest) = (
    subst (λ x. is_syncing x ≡ true) (sym (visit_request-state t h)) on,
    q,
    visit_request-other c best now t h k ne ∙ e,
    kind,
    rest,
  )

  distinct : (h k : Hash) (hs : List Hash) → holds h hs ≡ false → holds k hs ≡ true → h ≢ k
  distinct h k hs out there same =
      absurd (ground (arith, subst (λ x. holds x hs ≡ false) same out, there))

  pub visit_requests-failed :
      (t : Tick) (hs : List Hash)
      → t.syncer.cfg ≡ c
      → Distinct hs
      → (visit_requests best now t hs).sync_failed ≡ true
      → (t.sync_failed ≡ true) ⊎ ((k : Hash) × (holds k hs ≡ true) × Fails c now t.syncer k)
  unfolding visit_requests
  visit_requests-failed t [] cfgs d f = inl f
  visit_requests-failed t (h ∷ hs) cfgs d f =
      elim (visit_requests-failed (visit_request best now t h) hs
        (visit_request-cfg c best now t h ∙ cfgs) d.1 f) [
          | inr (k, there, failing) ↦
              inr (k, ground (arith, there), Fails-other t h k (distinct h k hs d.0 there) failing)
          | inl e ↦ elim (visit_request-failed t h cfgs e) [
            | inl before ↦ inl before
            | inr failing ↦ inr (h, ground arith, failing)
          ]
        ]

  pub visit_requests-noted :
      (t : Tick) (hs : List Hash)
      → t.syncer.cfg ≡ c
      → Distinct hs
      → (t.sync_failed ≡ true) ⊎ ((k : Hash) × (holds k hs ≡ true) × Fails c now t.syncer k)
      → (visit_requests best now t hs).sync_failed ≡ true
  unfolding visit_requests
  visit_requests-noted t [] cfgs d (inl f) = f
  visit_requests-noted t [] cfgs d (inr (k, there, _)) = absurd (ground (arith, there))
  visit_requests-noted t (h ∷ hs) cfgs d f =
      visit_requests-noted (visit_request best now t h) hs (visit_request-cfg c best now t h ∙ cfgs)
        d.1
        (elim f [
          | inl e ↦ inl (visit_request-noted t h cfgs (inl e))
          | inr (k, there, failing) ↦ elim (Bool-cases (h == k)) [
            | inl same ↦ inl (
                visit_request-noted t h cfgs
                  (inr (subst (Fails c now t.syncer) (sym ((==_iff h k).0 same)) failing)))
            | inr other ↦ inr (
              k,
              ground (arith, there, other),
              other-Fails t h k (λ e. absurd (ground (arith, other, e))) failing,
            )
          ]
        ])
