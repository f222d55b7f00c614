-- ===== src/Tests/Syncs.antt =====
-- The theorems on the synchroniser at small ones.
use go_sim_chain.Prelude.{
  All, ℕ, ◌+◌, ◌<◌, ◌≡◌, ◌↔◌, refl, List, [], ◌∷◌, none, some, true, false, not, ◌&&◌, ◌||◌, arith,
  length, ◌==◌, if◌then◌else◌, text, nat_eq, text_instance, if_cases,
}
use go_sim_chain.Prelude.Int.{pos}
use go_sim_chain.Map
use go_sim_chain.Map.{Map}
use go_sim_chain.Types.{Hash}
use go_sim_chain.Syncer.State.{RawConfig, for_inv, BlockReq, Syncer, configured, new, best_id}
use go_sim_chain.Syncer.Lanes.{enqueue_kind}
use go_sim_chain.Syncer.Dispatch.{start_request, full, dispatch_queued_blocks}
use go_sim_chain.Syncer.Inflight.{tick_inflight}
use go_sim_chain.Syncer.Handlers.{handle_blocks}
use go_sim_chain.Syncer.Sound.{holds, Distinct, IsWindow, IsSound, enqueue_kind-IsSound}
use go_sim_chain.Syncer.Window.{start_request-Requested}
use go_sim_chain.Syncer.Dispatched.{Settled, dispatch_queued_blocks-Settled}
use go_sim_chain.Syncer.Sends.{IsProper, dispatch_queued_blocks-IsProper}
use go_sim_chain.Syncer.Expiry.{Spaced, ticks, ticks_gone}
use go_sim_chain.Syncer.Ticked.{IsOrder, IsTicked, tick_inflight-IsTicked}
use go_sim_chain.Syncer.Run.{
  Event, gets_block, gets_blocks, hears_of_tx, gets_tx, run, new-IsSound, run-new-IsSound,
  begins_nil, handle_blocks-faults,
}
use go_sim_chain.Syncer.History.{
  Report, Summary, recorded, metrics_of, failures_since, last_failure, must_wait, recorded-Summary,
  should_backoff_peer-recorded,
}
use go_sim_chain.Syncer.Metrics.{should_backoff_peer}
use go_sim_chain.Tests.Blocks.{digests, start, above}

abbrev pub settings : RawConfig
settings = record {
  node_id = text "me";
  has_transport = true;
  has_chain = true;
  has_rpc = true;
  has_on_block = true;
  has_on_tx = true;
  peers = none;
  sync_timeout = pos 10;
  max_headers = pos 0;
  blocks_batch_size = pos 0;
  probe_interval = pos 0;
  max_inflight_blocks = pos 2;
  block_retry_limit = pos 1;
  header_retry_limit = pos 0;
  backoff_duration = pos 0;
}

-- A block was announced.
abbrev announced : Syncer
announced = enqueue_kind (new settings) 5 (text "p") for_inv

announced-IsSound : IsSound (configured settings) announced
announced-IsSound =
    enqueue_kind-IsSound (configured settings) (new settings) 5 (text "p") for_inv
      (new-IsSound settings)

can_send : (not announced.cfg.has_transport || not announced.cfg.has_chain) ≡ false
unfolding enqueue_kind new configured
can_send = refl

dispatch_queued_blocks-Settled_example :
    IsWindow (configured settings) (dispatch_queued_blocks start announced 3).0.inflight_blocks
    × Settled (best_id announced.peers 3) (dispatch_queued_blocks start announced 3).0
dispatch_queued_blocks-Settled_example =
    dispatch_queued_blocks-Settled (configured settings) start announced 3 announced-IsSound
      can_send

dispatch_queued_blocks-IsProper_example :
    All (IsProper (configured settings) start) (dispatch_queued_blocks start announced 3).1
dispatch_queued_blocks-IsProper_example =
    dispatch_queued_blocks-IsProper (configured settings) start 3 announced announced-IsSound

-- A block was asked for at time 0.
abbrev asked : Syncer
asked = start_request (new settings) 5 (text "p") for_inv 0

abbrev request : BlockReq
request = record { peer = text "p"; kind = for_inv; attempts = 1; deadline = 10 }

asked-IsSound : IsSound (configured settings) asked
unfolding full new configured
asked-IsSound =
    (start_request-Requested (configured settings) (new settings) (new-IsSound settings) 5
      (text "p") for_inv 0 refl).sound

abbrev without : Hash → List Hash → List Hash
without k [] = []
without k (j ∷ q) = let rest = without k q in if j == k then rest else j ∷ rest

abbrev listing : Map Hash BlockReq → List Hash
listing [] = []
listing ((h, r) ∷ m) = h ∷ without h (listing m)

holds-without : (h k : Hash) (q : List Hash) → holds h (without k q) ≡ (not (k == h) && holds h q)
holds-without h k [] = ground arith
holds-without h k (j ∷ q) = ground (arith, holds-without h k q)

without-Distinct : (k : Hash) (q : List Hash) → Distinct q → Distinct (without k q)
without-Distinct k [] d = tt
without-Distinct k (j ∷ q) d =
    if_cases Distinct (j == k) (λ _. without-Distinct k q d.1)
      (λ _. (ground (arith, holds-without j k q, d.0), without-Distinct k q d.1))

listing-IsOrder : IsOrder listing
unfolding Map.has Map.lookup
listing-IsOrder [] = (tt, λ h. refl)
listing-IsOrder ((k, r) ∷ m) =
    let (d, same) = listing-IsOrder m in
    (
      (ground (arith, holds-without k k (listing m)), without-Distinct k (listing m) d),
      λ h. ground (arith, holds-without h k (listing m), same h),
    )

can_ask : (not (configured settings).has_transport || not (configured settings).has_chain) ≡ false
unfolding configured
can_ask = refl

asked_lookup : Map.lookup 5 asked.inflight_blocks ≡ some request
unfolding start_request Map.insert Map.lookup new configured
asked_lookup = refl

tick_inflight-IsTicked_example :
    IsTicked
      (configured settings)
      10
      asked
      request
      (Map.lookup 5 (tick_inflight listing asked 10).0.inflight_blocks)
tick_inflight-IsTicked_example =
    tick_inflight-IsTicked (configured settings) 10 5 listing asked asked-IsSound request
      listing-IsOrder can_ask asked_lookup

abbrev times : List ℕ
times = 10 ∷ []

in_time : Spaced (configured settings).sync_timeout 10 times
in_time = (omega arith, tt)

few_attempts : (configured settings).block_retry_limit < 1 + length times
unfolding configured
few_attempts = omega arith

ticks_gone_example : Map.lookup 5 (ticks listing asked times).inflight_blocks ≡ none
ticks_gone_example =
    ticks_gone (configured settings) 5 listing asked times request listing-IsOrder can_ask
      asked-IsSound asked_lookup in_time few_attempts

abbrev events : List Event
events =
    hears_of_tx (text "t") (text "p") false
    ∷ gets_block (some (above 19683 7)) (text "p") 4
    ∷ gets_blocks (some (above 19683 7) ∷ none ∷ []) (text "p") 5
    ∷ gets_tx (text "t") true
    ∷ []

run-new-IsSound_example :
    (t : Syncer) × (run digests events (new settings) ≡ some t) × IsSound (configured settings) t
run-new-IsSound_example = run-new-IsSound digests settings events (tt, (tt, (tt, (tt, tt))))

handle_blocks-faults_example :
    (handle_blocks digests (new settings) (none ∷ []) (text "p") 4 ≡ none) ↔ (
      ((new settings).cfg.has_on_block ≡ true)
      × (0 < length (text "p"))
      × (begins_nil (none ∷ []) ≡ true))
handle_blocks-faults_example = handle_blocks-faults digests (new settings) (none ∷ []) (text "p") 4

abbrev reports : List Report
reports =
    record { peer = text "p"; start = 20; answered = false; at = 30 }
    ∷ record { peer = text "q"; start = 3; answered = false; at = 9 }
    ∷ record { peer = text "p"; start = 1; answered = true; at = 4 }
    ∷ []

recorded-Summary_example : Summary (text "p") reports (metrics_of (text "p") (recorded reports))
recorded-Summary_example = recorded-Summary (text "p") reports

should_backoff_peer-recorded_example :
    should_backoff_peer (recorded reports) (text "p") 40
    ≡ must_wait (failures_since (text "p") reports) (last_failure (text "p") reports) 40
should_backoff_peer-recorded_example = should_backoff_peer-recorded (text "p") reports 40
