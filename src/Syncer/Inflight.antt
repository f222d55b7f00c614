-- ===== src/Syncer/Inflight.antt =====
-- internal/syncer/syncer.go: requests that were not answered in time, and giving up on a peer
-- (`tickInflight`, `enterBackoff`, `resetSyncState`).
use go_sim_chain.Prelude.{
  ℕ, zero, suc, ◌+◌, ◌-◌, List, [], ◌∷◌, ◌++◌, none, some, Bool, true, false, not, ◌&&◌, ◌||◌, leb,
  ltb, ◌==◌, if◌then◌else◌, length, take, drop, Text, text_instance, nat_eq,
}
use go_sim_chain.Map
use go_sim_chain.Map.{Map}
use go_sim_chain.Types.{Hash}
use go_sim_chain.Peer.{Manager, report_timeout}
use go_sim_chain.Syncer.Metrics.{record_request}
use go_sim_chain.Syncer.State.{
  ReqKind, for_sync, for_inv, for_parent, BlockReq, SyncState, idle, syncing_headers,
  syncing_blocks, backing_off, Syncer, Outgoing, get_block, empty_lane, best_id,
}
use go_sim_chain.Syncer.Dispatch.{unusable, send_get_blocks}

abbrev pub is_sync : ReqKind → Bool
is_sync for_sync = true
is_sync for_inv = false
is_sync for_parent = false

-- The loop that deletes the requests of kind `blkSync`.
unfoldable pub drop_sync : Map Hash BlockReq → Map Hash BlockReq
drop_sync [] = []
drop_sync ((h, r) ∷ m) = let rest = drop_sync m in if is_sync r.kind then rest else (h, r) ∷ rest

unfoldable pub enter_backoff : Syncer → ℕ → Syncer
unfolding drop_sync
enter_backoff s now = record s {
  state = backing_off;
  backoff_until = now + s.cfg.backoff_duration;
  sync_peer = [];
  header_retries = 0;
  header_req_in_flight = false;
  sync = empty_lane;
  inflight_blocks = drop_sync s.inflight_blocks;
}

unfoldable pub reset_sync_state : Syncer → Syncer
unfolding drop_sync
reset_sync_state s = record s {
  state = idle;
  sync_peer = [];
  header_retries = 0;
  header_req_in_flight = false;
  sync = empty_lane;
  inflight_blocks = drop_sync s.inflight_blocks;
}

abbrev pub is_syncing : SyncState → Bool
is_syncing idle = false
is_syncing syncing_headers = true
is_syncing syncing_blocks = true
is_syncing backing_off = false

-- The variables of the loop of `tickInflight`.
pub record Tick : Type 0 where
  pub syncer : Syncer
  pub sends : List Outgoing
  pub retry_sync : Map Text (List Hash)
  pub timeouts : List Text
  pub sync_failed : Bool

-- A request past its deadline: its peer is noted, and the metrics count a failure.
unfoldable pub note_timeout : Tick → BlockReq → ℕ → Tick
note_timeout t r now = if length r.peer == 0 then t else record t {
  timeouts = t.timeouts ++ r.peer ∷ [];
  syncer = record (t.syncer) {
    metrics =
        record_request t.syncer.metrics r.peer (r.deadline - t.syncer.cfg.sync_timeout) false now;
  };
}

-- A request that has no attempts left.
unfoldable pub give_up : Tick → Hash → BlockReq → Tick
give_up t h r = record t {
  sync_failed = t.sync_failed || (is_sync r.kind && is_syncing t.syncer.state);
  syncer = record (t.syncer) { inflight_blocks = Map.delete h t.syncer.inflight_blocks };
}

-- A request that is sent once more, to `best` where there is one.
unfoldable pub try_again : Tick → Hash → BlockReq → Text → ℕ → Tick
unfolding unusable
try_again t h r best now =
    let to = if length best == 0 then r.peer else best in
    let t' = record t {
      syncer = record (t.syncer) {
        inflight_blocks =
            Map.insert h
              (record r {
                peer = to;
                attempts = r.attempts + 1;
                deadline = now + t.syncer.cfg.sync_timeout;
              })
              t.syncer.inflight_blocks;
      };
    } in
    if unusable t.syncer to
    then t'
    else if is_sync r.kind
    then record t' {
      retry_sync = Map.insert to (Map.get_or to t.retry_sync [] ++ h ∷ []) t.retry_sync;
    }
    else record t' { sends = t.sends ++ get_block to h ∷ [] }

-- One round of the loop.
unfoldable pub visit_request : Text → ℕ → Tick → Hash → Tick
unfolding note_timeout give_up try_again
visit_request best now t h = elim (Map.lookup h t.syncer.inflight_blocks) [
  | none ↦ t
  | some r ↦
      let t' = note_timeout t r now in
      if ltb now r.deadline
      then t
      else if leb t.syncer.cfg.block_retry_limit r.attempts
      then give_up t' h r
      else try_again t' h r best now
]

unfoldable pub visit_requests : Text → ℕ → Tick → List Hash → Tick
unfolding visit_request
visit_requests best now t [] = t
visit_requests best now t (h ∷ hs) = visit_requests best now (visit_request best now t h) hs

unfoldable pub report_timeouts : Manager → List Text → ℕ → Manager
report_timeouts m [] now = m
report_timeouts m (p ∷ ps) now = report_timeouts (report_timeout m p now) ps now

-- `for i := 0; i < len(hashes); i += bs`, with a round for each hash at most.
unfoldable pub send_chunks : ℕ → Syncer → Text → List Hash → List Outgoing
unfolding send_get_blocks
send_chunks zero s to hashes = []
send_chunks (suc rounds) s to hashes =
    let bs = if s.cfg.blocks_batch_size == 0 then 1 else s.cfg.blocks_batch_size in
    let rest = send_get_blocks s to (take bs hashes) ++ send_chunks rounds s to (drop bs hashes) in
    if length hashes == 0 then [] else rest

unfoldable pub send_retries : Syncer → Map Text (List Hash) → List Outgoing
unfolding send_chunks
send_retries s [] = []
send_retries s ((to, hashes) ∷ m) = send_chunks (length hashes) s to hashes ++ send_retries s m

-- `order` is the order in which `range` yields the requests.
unfoldable pub tick_inflight : (Map Hash BlockReq → List Hash) → Syncer → ℕ → Syncer × List Outgoing
unfolding visit_requests report_timeouts send_retries enter_backoff
tick_inflight order s now =
    let start : Tick = record {
      syncer = s;
      sends = [];
      retry_sync = [];
      timeouts = [];
      sync_failed = false;
    } in
    let t = visit_requests (best_id s.peers now) now start (order s.inflight_blocks) in
    let s' = record (t.syncer) { peers = report_timeouts t.syncer.peers t.timeouts now } in
    if not s.cfg.has_transport || (not s.cfg.has_chain || length s.inflight_blocks == 0)
    then (s, [])
    else (
      if t.sync_failed then enter_backoff s' now else s',
      t.sends ++ send_retries s t.retry_sync,
    )
