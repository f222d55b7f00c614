-- ===== src/Syncer/State.antt =====
-- internal/syncer/syncer.go: the state of a `Syncer`. Its mutex makes each method one step, but for
-- what a peer answers, which is an argument.
use go_sim_chain.Prelude.{ℕ, List, [], Option, none, some, Bool, false, Text, text_instance, nat_eq}
use go_sim_chain.Prelude.Int.{ℤ, pos, or_default}
use go_sim_chain.Map.{Map}
use go_sim_chain.Types.{Hash, BlockMeta}
use go_sim_chain.Peer.{Manager, new_manager, best_peer}
use go_sim_chain.Syncer.Metrics.{Tracker}

pub data SyncState : Type 0 where
  idle syncing_headers syncing_blocks backing_off : SyncState

pub data ReqKind : Type 0 where
  for_sync for_inv for_parent : ReqKind

-- `inflightBlockReq`
pub record BlockReq : Type 0 where
  pub peer : Text
  pub kind : ReqKind
  pub attempts : ℕ
  pub deadline : ℕ

pub record HeadersResult : Type 0 where
  pub peer : Text
  pub answered : Bool
  pub metas : List BlockMeta

-- The configuration that `New` is given; a flag tells whether a pointer or a callback is not nil.
pub record RawConfig : Type 0 where
  pub node_id : Text
  pub has_transport : Bool
  pub has_chain : Bool
  pub has_rpc : Bool
  pub has_on_block : Bool
  pub has_on_tx : Bool
  pub peers : Option Manager
  pub sync_timeout : ℤ
  pub max_headers : ℤ
  pub blocks_batch_size : ℤ
  pub probe_interval : ℤ
  pub max_inflight_blocks : ℤ
  pub block_retry_limit : ℤ
  pub header_retry_limit : ℤ
  pub backoff_duration : ℤ

-- The configuration as `New` leaves it.
pub record Config : Type 0 where
  pub node_id : Text
  pub has_transport : Bool
  pub has_chain : Bool
  pub has_rpc : Bool
  pub has_on_block : Bool
  pub has_on_tx : Bool
  pub sync_timeout : ℕ
  pub max_headers : ℕ
  pub blocks_batch_size : ℕ
  pub probe_interval : ℕ
  pub max_inflight_blocks : ℕ
  pub block_retry_limit : ℕ
  pub header_retry_limit : ℕ
  pub backoff_duration : ℕ

-- A queue of hashes with the peer that each should come from: `queueParent` and `queuedParent`, and so
-- on for the other two.
pub record Lane : Type 0 where
  pub queue : List Hash
  pub queued : Map Hash Text

pub record Syncer : Type 0 where
  pub cfg : Config
  pub peers : Manager
  pub inflight_blocks : Map Hash BlockReq
  pub inflight_tx : Map Text (Unit {0})
  pub parent : Lane
  pub sync : Lane
  pub inv : Lane
  pub state : SyncState
  pub sync_peer : Text
  pub backoff_until : ℕ
  pub header_req_in_flight : Bool
  pub header_retries : ℕ
  pub metrics : Tracker

-- What the transport is given: `Send` of a request, or `Broadcast` of an announcement.
pub data Outgoing : Type 0 where
  get_block : Text → Hash → Outgoing
  get_blocks : Text → List Hash → Outgoing
  get_headers : Text → List Hash → ℕ → Outgoing
  get_tx : Text → Text → Outgoing
  inv_tx : Text → Outgoing

abbrev pub empty_lane : Lane
empty_lane = record { queue = []; queued = [] }

unfoldable pub configured : RawConfig → Config
configured c = record {
  node_id = c.node_id;
  has_transport = c.has_transport;
  has_chain = c.has_chain;
  has_rpc = c.has_rpc;
  has_on_block = c.has_on_block;
  has_on_tx = c.has_on_tx;
  sync_timeout = or_default c.sync_timeout 2000000000;
  max_headers = or_default c.max_headers 2000;
  blocks_batch_size = or_default c.blocks_batch_size 64;
  probe_interval = or_default c.probe_interval 900000000;
  max_inflight_blocks = or_default c.max_inflight_blocks 16;
  block_retry_limit = or_default c.block_retry_limit 3;
  header_retry_limit = or_default c.header_retry_limit 2;
  backoff_duration = or_default c.backoff_duration 1200000000;
}

unfoldable pub new : RawConfig → Syncer
unfolding configured
new c = record {
  cfg = configured c;
  peers = elim c.peers [ none ↦ new_manager (pos 800000000) | some m ↦ m ];
  inflight_blocks = [];
  inflight_tx = [];
  parent = empty_lane;
  sync = empty_lane;
  inv = empty_lane;
  state = idle;
  sync_peer = [];
  backoff_until = 0;
  header_req_in_flight = false;
  header_retries = 0;
  metrics = [];
}

-- The id that `Peers.BestPeer` returns.
unfoldable pub best_id : Manager → ℕ → Text
best_id m now = elim (best_peer m now) [ none ↦ [] | some p ↦ p.id ]
