-- ===== src/Syncer/Headers.antt =====
-- internal/syncer/syncer.go: the state machine of the headers-first sync (`drainHeaderResults`,
-- `maybeStartHeaderRequest`, `probeTips`, `catchUpIfBehind`).
use go_sim_chain.Prelude.{
  ℕ, ◌+◌, List, [], ◌∷◌, ◌++◌, Option, none, some, Bool, true, false, not, ◌&&◌, ◌||◌, leb, ltb,
  ◌==◌, if◌then◌else◌, length, Text, text_eq,
}
use go_sim_chain.Prelude.Int.{ℤ, pos, ltb_ℤ}
use go_sim_chain.Map.{Map}
use go_sim_chain.Types.{Hash, BlockMeta, is_zero}
use go_sim_chain.Chain.State.{Blockchain, has_block, tip_cum_work, tip_height}
use go_sim_chain.Chain.Query.{locator}
use go_sim_chain.Peer.{Info, report_timeout, update_tip, upsert, best_peer}
use go_sim_chain.Syncer.State.{
  for_sync, BlockReq, SyncState, idle, syncing_headers, syncing_blocks, backing_off, HeadersResult,
  Syncer, Outgoing, get_headers,
}
use go_sim_chain.Syncer.Lanes.{enqueue_block}
use go_sim_chain.Syncer.Dispatch.{unusable, dispatch_queued_blocks}
use go_sim_chain.Syncer.Inflight.{is_sync, enter_backoff, reset_sync_state, tick_inflight}

abbrev pub is_idle : SyncState → Bool
is_idle idle = true
is_idle syncing_headers = false
is_idle syncing_blocks = false
is_idle backing_off = false

abbrev pub wants_headers : SyncState → Bool
wants_headers idle = false
wants_headers syncing_headers = true
wants_headers syncing_blocks = false
wants_headers backing_off = false

abbrev pub wants_blocks : SyncState → Bool
wants_blocks idle = false
wants_blocks syncing_headers = false
wants_blocks syncing_blocks = true
wants_blocks backing_off = false

abbrev pub backs_off : SyncState → Bool
backs_off idle = false
backs_off syncing_headers = false
backs_off syncing_blocks = false
backs_off backing_off = true

-- A peer's answer to `GetTip`: height, hash, work, which may be
-- below 0, and round trip; none where it has none in time, or
-- one that cannot be read.
pub record TipAnswer : Type 0 where
  pub peer : Text
  pub tip : Option (ℕ × Hash × ℤ × ℕ)

unfoldable pub upsert_all : Syncer → List Text → Syncer
upsert_all s [] = s
upsert_all s (p ∷ ps) =
    upsert_all
      (if length p == 0 || text_eq p s.cfg.node_id
        then s
        else record s { peers = upsert s.peers p })
      ps

unfoldable pub note_tip : Syncer → TipAnswer → ℕ → Syncer
note_tip s a now = elim a.tip [
  | none ↦ record s { peers = report_timeout s.peers a.peer now }
  | some (height, hash, work, rtt) ↦ record s {
    peers = update_tip s.peers a.peer height hash (some work) rtt now;
  }
]

unfoldable pub note_tips : Syncer → List TipAnswer → ℕ → Syncer
unfolding note_tip
note_tips s [] now = s
note_tips s (a ∷ as') now = note_tips (note_tip s a now) as' now

-- `answers` are those of the peers that are asked, in the order in which they come.
unfoldable pub probe_tips : Syncer → List Text → List TipAnswer → ℕ → Syncer
unfolding upsert_all note_tips
probe_tips s peers answers now =
    if not s.cfg.has_transport || (not s.cfg.has_chain || not s.cfg.has_rpc)
    then s
    else note_tips (upsert_all s peers) answers now

-- The loop of `syncWorkDone` over the requests.
unfoldable pub no_sync_left : Map Hash BlockReq → Bool
no_sync_left [] = true
no_sync_left ((_, r) ∷ m) = if is_sync r.kind then false else no_sync_left m

unfoldable pub sync_work_done : Syncer → Bool
unfolding no_sync_left
sync_work_done s = if ltb 0 (length s.sync.queued) then false else no_sync_left s.inflight_blocks

-- A failed request for headers.
unfoldable pub headers_failed : Syncer → Text → ℕ → Syncer
headers_failed s peer now =
    let s' = record s {
      peers = if length peer == 0 then s.peers else report_timeout s.peers peer now;
      header_retries = s.header_retries + 1;
    } in
    if leb s.cfg.header_retry_limit s'.header_retries then enter_backoff s' now else s'

module _ (bc : Blockchain) where
  -- The loop over the metas, and `queuedAny`.
  unfoldable pub queue_metas : Syncer → List BlockMeta → Text → Syncer × Bool
  queue_metas s [] peer = (s, false)
  queue_metas s (m ∷ ms) peer =
      let skipped = is_zero m.hash || (s.cfg.has_chain && has_block bc m.hash) in
      let (s', any) =
        queue_metas (if skipped then s else enqueue_block bc s m.hash peer for_sync) ms peer in
      (s', if skipped then any else true)

  -- Some block was queued.
  unfoldable pub begin_blocks : Syncer → Text → Syncer
  begin_blocks s peer = record s {
    state = if wants_headers s.state then syncing_blocks else s.state;
    sync_peer = if length s.sync_peer == 0 then peer else s.sync_peer;
  }

  -- One round of `drainHeaderResults`.
  unfoldable pub drain_result : Syncer → HeadersResult → ℕ → Syncer × List Outgoing
  unfolding headers_failed queue_metas begin_blocks
  drain_result s r now =
      let free = record s { header_req_in_flight = false } in
      let (s', any) = queue_metas (record free { header_retries = 0 }) r.metas r.peer in
      if not r.answered
      then (headers_failed free r.peer now, [])
      else if any
      then dispatch_queued_blocks bc (begin_blocks s' r.peer) now
      else (s', [])

  -- `results` are those that wait in the channel.
  unfoldable pub drain_header_results : Syncer → List HeadersResult → ℕ → Syncer × List Outgoing
  unfolding drain_result
  drain_header_results s [] now = (s, [])
  drain_header_results s (r ∷ rs) now =
      let (s', out) = drain_result s r now in
      let (last, outs) = drain_header_results s' rs now in (last, out ++ outs)

  -- What the peer answers arrives as a `HeadersResult`.
  unfoldable pub maybe_start_header_request : Syncer → Text → Syncer × List Outgoing
  maybe_start_header_request s peer =
      if not s.cfg.has_rpc || (not s.cfg.has_chain || unusable s peer)
      then (s, [])
      else if not (wants_headers s.state) || s.header_req_in_flight
      then (s, [])
      else (
        record s {
          header_req_in_flight = true;
          sync_peer = if length s.sync_peer == 0 then peer else s.sync_peer;
        },
        get_headers peer (locator bc (pos 32)) s.cfg.max_headers ∷ [],
      )

  unfoldable pub leave_backoff : Syncer → ℕ → Syncer
  leave_backoff s now =
      if backs_off s.state && ltb s.backoff_until now
      then record s {
        state = idle;
        sync_peer = [];
        header_retries = 0;
        header_req_in_flight = false;
      }
      else s

  -- The test `behind`. The work of the tip is nil in no valid tree.
  unfoldable pub is_behind : Info → Bool
  is_behind best = elim (tip_cum_work bc) [
    | none ↦ true
    | some work ↦ ltb_ℤ (pos work) best.cum_work || ltb (tip_height bc) best.tip_height
  ]

  -- The last `switch`.
  unfoldable pub advance : Syncer → Text → Syncer × List Outgoing
  unfolding maybe_start_header_request sync_work_done
  advance s best =
      let peer = if length s.sync_peer == 0 then best else s.sync_peer in
      if wants_headers s.state
      then maybe_start_header_request s peer
      else if wants_blocks s.state && sync_work_done s
      then (record s { state = syncing_headers }, [])
      else (s, [])

  unfoldable pub choose_work : Syncer → ℕ → Syncer × List Outgoing
  unfolding is_behind reset_sync_state advance
  choose_work s now = elim (best_peer s.peers now) [
    | none ↦ (s, [])
    | some best ↦
        if length best.id == 0
        then (s, [])
        else if not (is_behind best)
        then (reset_sync_state s, [])
        else if is_idle s.state
        then advance (record s { state = syncing_headers; sync_peer = best.id; header_retries = 0 })
            best.id
        else advance s best.id
  ]

  -- The round as it goes where no other goroutine calls the synchroniser between its parts.
  unfoldable pub catch_up_if_behind :
      (Map Hash BlockReq → List Hash) → Syncer → List HeadersResult → ℕ → Syncer × List Outgoing
  unfolding drain_header_results leave_backoff choose_work
  catch_up_if_behind order s results now =
      let (s1, out1) = tick_inflight order s now in
      let (s2, out2) = dispatch_queued_blocks bc s1 now in
      let (s3, out3) = drain_header_results s2 results now in
      let (s4, out4) = choose_work (leave_backoff s3 now) now in
      if not s.cfg.has_chain then (s, []) else (s4, out1 ++ (out2 ++ (out3 ++ out4)))
