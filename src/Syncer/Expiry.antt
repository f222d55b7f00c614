-- ===== src/Syncer/Expiry.antt =====
-- `tickInflight`: a request that is not answered is given up.
use go_sim_chain.Prelude.{
  ℕ, ◌+◌, ◌≤◌, ◌<◌, ◌≡◌, refl, sym, subst, inl, inr, List, [], ◌∷◌, Option, none, some, false, not,
  ◌||◌, arith, length, nat_eq,
}
use go_sim_chain.Map
use go_sim_chain.Map.{Map}
use go_sim_chain.Types.{Hash}
use go_sim_chain.Syncer.State.{Config, BlockReq, Syncer}
use go_sim_chain.Syncer.Inflight.{tick_inflight}
use go_sim_chain.Syncer.Sound.{IsSound}
use go_sim_chain.Syncer.Retries.{tick_inflight-IsSound}
use go_sim_chain.Syncer.Ticked.{IsOrder, IsTicked, tick_inflight-missing, tick_inflight-IsTicked}

-- Each tick comes when the request that the tick before it sent is past its deadline.
abbrev pub Spaced : ℕ → ℕ → List ℕ → Type 0
Spaced timeout deadline [] = Unit {0}
Spaced timeout deadline (now ∷ later) = (deadline ≤ now) × Spaced timeout (now + timeout) later

abbrev pub ticks : (Map Hash BlockReq → List Hash) → Syncer → List ℕ → Syncer
ticks order s [] = s
ticks order s (now ∷ later) = ticks order (tick_inflight order s now).0 later

module _ (c : Config) (h : Hash) (order : Map Hash BlockReq → List Hash) where
  ticks-missing :
      (s : Syncer) (times : List ℕ)
      → IsSound c s
      → Map.lookup h s.inflight_blocks ≡ none
      → Map.lookup h (ticks order s times).inflight_blocks ≡ none
  ticks-missing s [] v e = e
  ticks-missing s (now ∷ later) v e =
      ticks-missing (tick_inflight order s now).0 later (tick_inflight-IsSound c order s now v)
        (tick_inflight-missing c now h order s v e)

  IsTicked-gone :
      (u s : Syncer) (now : ℕ) (later : List ℕ) (r : BlockReq) (o : Option BlockReq)
      → IsSound c s
      → r.deadline ≤ now
      → IsTicked c now u r o
      → Map.lookup h s.inflight_blocks ≡ o
      → ((q : BlockReq)
          → Map.lookup h s.inflight_blocks ≡ some q
          → q.attempts ≡ r.attempts + 1
          → q.deadline ≡ now + c.sync_timeout
          → Map.lookup h (ticks order s later).inflight_blocks ≡ none)
      → Map.lookup h (ticks order s later).inflight_blocks ≡ none
  IsTicked-gone u s now later r none v due w e more = ticks-missing s later v e
  IsTicked-gone u s now later r (some q) v due ((_, inl (early, _)), _) e more =
      absurd (omega arith)
  IsTicked-gone u s now later r (some q) v due ((_, inr (_, _, tries, deadline)), _) e more =
      more q e tries deadline

  -- A block that no peer delivers is not waited for without end: a request in flight of a sound
  -- synchroniser that has a transport and a chain is gone after enough ticks, one for each attempt that
  -- it has left and one to give up, where each tick comes after the deadline of the attempt before it,
  -- `range` yields each request once, and nothing happens between the ticks.
  pub ticks_gone :
      (s : Syncer) (times : List ℕ) (r : BlockReq)
      → IsOrder order
      → (not c.has_transport || not c.has_chain) ≡ false
      → IsSound c s
      → Map.lookup h s.inflight_blocks ≡ some r
      → Spaced c.sync_timeout r.deadline times
      → c.block_retry_limit < r.attempts + length times
      → Map.lookup h (ticks order s times).inflight_blocks ≡ none
  ticks_gone s [] r lists able v found spaced enough =
      absurd (omega (arith, v.window.tries h r found))
  ticks_gone s (now ∷ later) r lists able v found (due, spaced) enough =
      let s' = (tick_inflight order s now).0 in
      let v' = tick_inflight-IsSound c order s now v in
      IsTicked-gone s s' now later r (Map.lookup h s'.inflight_blocks) v' due
        (tick_inflight-IsTicked c now h order s v r lists able found) refl
        (λ q e tries deadline.
          ticks_gone s' later q lists able v' e
            (subst (λ d. Spaced c.sync_timeout d later) (sym deadline) spaced) (omega arith))
