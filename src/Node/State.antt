-- ===== src/Node/State.antt =====
-- internal/node/node.go: the state of a `Node`, `NewNode`, and the transactions that it knows.
use go_sim_chain.Prelude.{
  ℕ, List, [], ◌∷◌, Option, none, Bool, true, false, not, ◌&&◌, ◌==◌, if◌then◌else◌, length, Text,
  text_instance,
}
use go_sim_chain.Prelude.Int.{ℤ, pos, or_default}
use go_sim_chain.Map
use go_sim_chain.Map.{Map}
use go_sim_chain.Types.{Hash, Transaction, Block, BlockMeta}
use go_sim_chain.Chain.State.{Blockchain, Reorg}
use go_sim_chain.Mempool.{Mempool, add, can_broadcast, mark_broadcast}
use go_sim_chain.Syncer.State.{Syncer, Outgoing, new}

pub record Node : Type 0 where
  pub id : Text
  pub chain : Blockchain
  pub mempool : Mempool
  pub has_transport : Bool
  pub difficulty : ℕ
  pub max_tx_per_block : ℕ
  pub max_headers : ℕ
  pub syncer : Syncer
  pub mined_blocks : ℕ
  pub received_blocks : ℕ
  pub known_tx_ids : Map Text (Unit {0})
  pub tx_store : Map Text Transaction
  pub pending_rpc : Map Text (Unit {0})

-- What the transport is given, and the call of `onTipChange`.
pub data Sent : Type 0 where
  from_syncer : Outgoing → Sent
  announce_tx : Text → Sent
  announce_block : BlockMeta → Sent
  give_tx : Text → Transaction → Sent
  give_block : Text → Block → Sent
  give_tip : Text → Text → Hash → ℕ → ℕ → Sent
  give_headers : Text → Text → List BlockMeta → Sent
  give_blocks : Text → Text → List Block → Sent
  tip_changed : Text → ℕ → Hash → Option Reorg → Sent
  rpc_answered : Text → Sent

-- The part of `Config` that the model reads; the times come as nanoseconds.
pub record NodeConfig : Type 0 where
  pub difficulty : ℕ
  pub max_tx_per_block : ℤ
  pub sync_timeout : ℤ
  pub max_headers : ℤ
  pub get_blocks_batch_size : ℤ

unfoldable pub new_node : Text → Blockchain → Mempool → Bool → NodeConfig → Node
new_node id chain mempool has_transport cfg = record {
  id = id;
  chain = chain;
  mempool = mempool;
  has_transport = has_transport;
  difficulty = cfg.difficulty;
  max_tx_per_block = or_default cfg.max_tx_per_block 50;
  max_headers = or_default cfg.max_headers 2000;
  syncer = new (record {
    node_id = id;
    has_transport = has_transport;
    has_chain = true;
    has_rpc = true;
    has_on_block = true;
    has_on_tx = true;
    peers = none;
    sync_timeout = pos (or_default cfg.sync_timeout 2000000000);
    max_headers = pos (or_default cfg.max_headers 2000);
    blocks_batch_size = pos (or_default cfg.get_blocks_batch_size 64);
    probe_interval = pos 0;
    max_inflight_blocks = pos 0;
    block_retry_limit = pos 0;
    header_retry_limit = pos 0;
    backoff_duration = pos 0;
  });
  mined_blocks = 0;
  received_blocks = 0;
  known_tx_ids = [];
  tx_store = [];
  pending_rpc = [];
}

unfoldable pub remember_tx : Node → Transaction → Node
remember_tx n tx = record n {
  known_tx_ids = Map.insert tx.id tt n.known_tx_ids;
  tx_store = Map.insert tx.id tx n.tx_store;
}

unfoldable pub has_tx : Node → Text → Bool
has_tx n id = Map.has id n.known_tx_ids

-- `tx` is what `types.NewTransaction` makes of the payload.
unfoldable pub submit_transaction : Node → Transaction → ℕ → Node × List Sent
unfolding remember_tx has_tx
submit_transaction n tx now =
    let (mempool, added) = add n.mempool now tx in
    let n' =
      if added
      then remember_tx (record n { mempool = mempool }) tx
      else record n { mempool = mempool } in
    let announced = record n' { mempool = mark_broadcast n'.mempool now tx.id } in
    if not (if added then true else can_broadcast n'.mempool now tx.id)
    then (n', [])
    else if not n.has_transport
    then (n', [])
    else if not added && not (has_tx n' tx.id)
    then (n', [])
    else (announced, announce_tx tx.id ∷ [])

unfoldable pub accept_tx_from_peer : Node → Transaction → ℕ → Node × Bool
unfolding remember_tx has_tx
accept_tx_from_peer n tx now =
    let (mempool, added) = add n.mempool now tx in
    if length tx.id == 0
    then (n, false)
    else if has_tx n tx.id
    then (n, false)
    else if not added
    then (record n { mempool = mempool }, false)
    else (remember_tx (record n { mempool = mempool }) tx, true)
