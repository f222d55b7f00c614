-- ===== src/Syncer/Run.antt =====
-- A `Syncer` over any sequence of calls.
use go_sim_chain.Prelude.{
  ℕ, ◌<◌, ◌≡◌, subst, ◌↔◌, refl, List, [], ◌∷◌, Option, none, some, Bool, true, false, not, arith,
  ◌==◌, length, Text, text_instance, nat_eq, if_either, if_cases, All,
}
use go_sim_chain.Map
use go_sim_chain.Map.{Map}
use go_sim_chain.Types.{Hash, Block, BlockMeta}
use go_sim_chain.Crypto.{Digests}
use go_sim_chain.Chain.State.{Blockchain}
use go_sim_chain.Syncer.State.{
  ReqKind, Config, RawConfig, BlockReq, HeadersResult, Syncer, configured, new,
}
use go_sim_chain.Syncer.Headers.{
  TipAnswer, probe_tips, drain_header_results, leave_backoff, choose_work, catch_up_if_behind,
}
use go_sim_chain.Syncer.Lanes.{enqueue_block}
use go_sim_chain.Syncer.Dispatch.{dispatch_queued_blocks}
use go_sim_chain.Syncer.Inflight.{tick_inflight, reset_sync_state}
use go_sim_chain.Syncer.Dispatched.{dispatch_queued_blocks-IsSound}
use go_sim_chain.Syncer.Retries.{tick_inflight-IsSound, reset_sync_state-IsSound}
use go_sim_chain.Syncer.Handlers.{
  named_hash, handle_block, handle_blocks, handle_inv_block, handle_inv_tx, expire_tx, handle_tx,
}
use go_sim_chain.Syncer.Sound.{enqueue_block-IsSound, IsSound, IsSound-fields, empty_lane-IsLane}
use go_sim_chain.Syncer.Rounds.{
  probe_tips-IsSound, drain_header_results-IsSound, leave_backoff-IsSound, choose_work-IsSound,
  catch_up_if_behind-IsSound,
}
use go_sim_chain.Syncer.Handled.{
  note_answer-IsSound, arrive_all-IsSound, handle_block-IsSound, handle_inv_block-IsSound,
  handle_inv_tx-IsSound, handle_tx-IsSound,
}

-- What happens to a `Syncer`; the chain is the one at that time. The last seven are the parts of
-- `catchUpIfBehind` and `HandleInvBlock` between which these hold no lock, so that other calls may come.
pub data Event : Type 0 where
  probes : List Text → List TipAnswer → ℕ → Event
  catches_up : Blockchain → (Map Hash BlockReq → List Hash) → List HeadersResult → ℕ → Event
  hears_of_block : Blockchain → BlockMeta → Text → ℕ → Event
  gets_block : Option Block → Text → ℕ → Event
  gets_blocks : List (Option Block) → Text → ℕ → Event
  hears_of_tx : Text → Text → Bool → Event
  forgets_tx : Text → Event
  gets_tx : Text → Bool → Event
  ticks : (Map Hash BlockReq → List Hash) → ℕ → Event
  dispatches : Blockchain → ℕ → Event
  drains : Blockchain → List HeadersResult → ℕ → Event
  leaves_backoff : Blockchain → ℕ → Event
  chooses_work : Blockchain → ℕ → Event
  resets : Event
  enqueues : Blockchain → Hash → Text → ReqKind → Event

-- A `Syncer` that follows a nil pointer is none: the process ends.
unfoldable pub step : Digests → Syncer → Event → Option Syncer
step D s (probes ps answers now) = some (probe_tips s ps answers now)
step D s (catches_up bc order results now) = some (catch_up_if_behind bc order s results now).0
step D s (hears_of_block bc m from now) = some (handle_inv_block D bc s m from now).0
step D s (gets_block b from now) = some (handle_block D s b from now).0
step D s (gets_blocks bs from now) = elim (handle_blocks D s bs from now) [
  | none ↦ none
  | some r ↦ some r.0
]
step D s (hears_of_tx txid from has) = some (handle_inv_tx s txid from has).0
step D s (forgets_tx txid) = some (expire_tx s txid)
step D s (gets_tx txid added) = some (handle_tx s txid added).0
step D s (ticks order now) = some (tick_inflight order s now).0
step D s (dispatches bc now) = some (dispatch_queued_blocks bc s now).0
step D s (drains bc results now) = some (drain_header_results bc s results now).0
step D s (leaves_backoff bc now) = some (leave_backoff bc s now)
step D s (chooses_work bc now) = some (choose_work bc s now).0
step D s resets = some (reset_sync_state s)
step D s (enqueues bc h peer kind) = some (enqueue_block bc s h peer kind)

unfoldable pub run : Digests → List Event → Syncer → Option Syncer
unfolding step
run D [] s = some s
run D (e ∷ es) s = elim (step D s e) [ none ↦ none | some t ↦ run D es t ]

-- The first block of a batch is there, or nobody sent it.
abbrev pub IsHarmless : Event → Type 0
IsHarmless (probes ps answers now) = Unit {0}
IsHarmless (catches_up bc order results now) = Unit {0}
IsHarmless (hears_of_block bc m from now) = Unit {0}
IsHarmless (gets_block b from now) = Unit {0}
IsHarmless (gets_blocks [] from now) = Unit {0}
IsHarmless (gets_blocks (none ∷ bs) from now) = length from ≡ 0
IsHarmless (gets_blocks (some b ∷ bs) from now) = Unit {0}
IsHarmless (hears_of_tx txid from has) = Unit {0}
IsHarmless (forgets_tx txid) = Unit {0}
IsHarmless (gets_tx txid added) = Unit {0}
IsHarmless (ticks order now) = Unit {0}
IsHarmless (dispatches bc now) = Unit {0}
IsHarmless (drains bc results now) = Unit {0}
IsHarmless (leaves_backoff bc now) = Unit {0}
IsHarmless (chooses_work bc now) = Unit {0}
IsHarmless resets = Unit {0}
IsHarmless (enqueues bc h peer kind) = Unit {0}

pub new-IsSound : (raw : RawConfig) → IsSound (configured raw) (new raw)
unfolding new configured Map.lookup
new-IsSound raw = record {
  settings = refl;
  limit = ground arith;
  window = record {
    unique = tt;
    few = omega arith;
    sent = λ h r e. absurd cc;
    tries = λ h r e. absurd cc;
  };
  parents = empty_lane-IsLane;
  syncs = empty_lane-IsLane;
  invs = empty_lane-IsLane;
}

module _ (c : Config) where
  -- A call that is no fault leaves a sound state.
  abbrev Runs : Option Syncer → Type 0
  Runs o = (t : Syncer) × (o ≡ some t) × IsSound c t

  abbrev Batch : Option (Syncer × List Block) → Type 0
  Batch o = Runs (elim o [ none ↦ none | some r ↦ some r.0 ])

  module _ (D : Digests) where
    gets_blocks-Runs :
        (s : Syncer) (bs : List (Option Block)) (from : Text) (now : ℕ)
        → IsSound c s
        → IsHarmless (gets_blocks bs from now)
        → Runs (step D s (gets_blocks bs from now))
    unfolding step handle_blocks
    gets_blocks-Runs s [] from now v harmless = (s, refl, v)
    gets_blocks-Runs s (none ∷ bs) from now v harmless =
        if_either Batch (not s.cfg.has_on_block) (s, refl, v)
          (if_cases Batch (length from == 0) (λ _. (_, refl, arrive_all-IsSound c D bs s v))
            (λ sent. absurd (ground arith)))
    gets_blocks-Runs s (some b ∷ bs) from now v harmless =
        if_either Batch (not s.cfg.has_on_block) (s, refl, v)
          (
            _,
            refl,
            arrive_all-IsSound c D (some b ∷ bs) _
                (note_answer-IsSound c s (named_hash D b) from now v),
          )

    of_Batch :
        (o : Option (Syncer × List Block))
        → Batch o
        → (r : Syncer × List Block) × (o ≡ some r) × IsSound c r.0
    of_Batch none (t, e, w) = absurd cc
    of_Batch (some r) (t, e, w) = let same : t ≡ r.0 = cc in (r, refl, subst (IsSound c) same w)

    pub handle_blocks-IsSound :
        (s : Syncer) (bs : List (Option Block)) (from : Text) (now : ℕ)
        → IsSound c s
        → IsHarmless (gets_blocks bs from now)
        → (r : Syncer × List Block) × (handle_blocks D s bs from now ≡ some r) × IsSound c r.0
    unfolding step
    handle_blocks-IsSound s bs from now v harmless =
        of_Batch (handle_blocks D s bs from now) (gets_blocks-Runs s bs from now v harmless)

    step-Runs : (e : Event) (s : Syncer) → IsSound c s → IsHarmless e → Runs (step D s e)
    unfolding step expire_tx
    step-Runs (probes ps answers now) s v _ = (_, refl, probe_tips-IsSound c s ps answers now v)
    step-Runs (catches_up bc order results now) s v _ =
        (_, refl, catch_up_if_behind-IsSound c bc order s results now v)
    step-Runs (hears_of_block bc m from now) s v _ =
        (_, refl, handle_inv_block-IsSound c D bc s m from now v)
    step-Runs (gets_block b from now) s v _ = (_, refl, handle_block-IsSound c D s b from now v)
    step-Runs (gets_blocks bs from now) s v harmless = gets_blocks-Runs s bs from now v harmless
    step-Runs (hears_of_tx txid from has) s v _ =
        (_, refl, handle_inv_tx-IsSound c s txid from has v)
    step-Runs (forgets_tx txid) s v _ = (_, refl, IsSound-fields c s _ v refl refl refl refl refl)
    step-Runs (gets_tx txid added) s v _ = (_, refl, handle_tx-IsSound c s txid added v)
    step-Runs (ticks order now) s v _ = (_, refl, tick_inflight-IsSound c order s now v)
    step-Runs (dispatches bc now) s v _ = (_, refl, dispatch_queued_blocks-IsSound c bc s now v)
    step-Runs (drains bc results now) s v _ =
        (_, refl, drain_header_results-IsSound c bc results s now v)
    step-Runs (leaves_backoff bc now) s v _ = (_, refl, leave_backoff-IsSound c bc s now v)
    step-Runs (chooses_work bc now) s v _ = (_, refl, choose_work-IsSound c bc s now v)
    step-Runs resets s v _ = (_, refl, reset_sync_state-IsSound c s v)
    step-Runs (enqueues bc h peer kind) s v _ =
        (_, refl, enqueue_block-IsSound c bc s h peer kind v)

    run-Runs : (es : List Event) (s : Syncer) → IsSound c s → All IsHarmless es → Runs (run D es s)
    unfolding run
    run-Runs [] s v _ = (s, refl, v)
    run-Runs (e ∷ es) s v (harmless, rest) =
        let (t, same, w) = step-Runs e s v harmless in
        let (u, last, x) = run-Runs es t w rest in (u, rw (same, run) last, x)

-- A new `Syncer` takes any sequence of calls, and of parts of `catchUpIfBehind` and `HandleInvBlock`, among which no batch of blocks from a peer begins with a
-- nil block, and is sound after it: no more requests are in flight than MaxInflightBlocks, each was
-- sent between 1 and BlockRetryLimit times, and each of the three queues holds every hash of its map
-- once and no other.
pub run-new-IsSound :
    (D : Digests) (raw : RawConfig) (es : List Event)
    → All IsHarmless es
    → (t : Syncer) × (run D es (new raw) ≡ some t) × IsSound (configured raw) t
run-new-IsSound D raw es harmless =
    run-Runs (configured raw) D es (new raw) (new-IsSound raw) harmless

abbrev pub begins_nil : List (Option Block) → Bool
begins_nil [] = false
begins_nil (none ∷ bs) = true
begins_nil (some b ∷ bs) = false

-- `HandleBlocks` ends the process exactly when the node takes blocks, the sender is named and the
-- first block of the batch is nil.
pub handle_blocks-faults :
    (D : Digests) (s : Syncer) (bs : List (Option Block)) (from : Text) (now : ℕ)
    → (handle_blocks D s bs from now ≡ none)
      ↔ ((s.cfg.has_on_block ≡ true) × (0 < length from) × (begins_nil bs ≡ true))
unfolding handle_blocks
handle_blocks-faults D s [] from now = (λ e. absurd cc, λ x. absurd cc)
handle_blocks-faults D s (none ∷ bs) from now = ground arith
handle_blocks-faults D s (some b ∷ bs) from now = (λ e. absurd (ground (arith, e)), λ x. absurd cc)
