-- ===== src/Tests/Nodes.antt =====
-- The theorems on the node at a small one.
use go_sim_chain.Prelude.{◌≡◌, List, [], ◌∷◌, none, some, true, text}
use go_sim_chain.Prelude.Int.{pos}
use go_sim_chain.Types.{Block}
use go_sim_chain.Chain.State.{AddResult}
use go_sim_chain.Syncer.State.{configured, new}
use go_sim_chain.Syncer.Run.{new-IsSound}
use go_sim_chain.Node.State.{Node}
use go_sim_chain.Node.Blocks.{settle_mempool}
use go_sim_chain.Node.Messages.{block, get_tip, get_headers}
use go_sim_chain.Node.Cleared.{SettledAs, settle_mempool-SettledAs}
use go_sim_chain.Node.Sound.{IsSoundNode}
use go_sim_chain.Node.Run.{
  Event, receives, submits, cleans_mempool, happen_all, happen_all-IsSoundNode,
}
use go_sim_chain.Tests.Blocks.{digests, keys, start, start-IsValid, above}
use go_sim_chain.Tests.Pools.{two_txs, two_txs-IsValid, pay}
use go_sim_chain.Tests.Syncs.{settings}

abbrev node : Node
node = record {
  id = text "me";
  chain = start;
  mempool = two_txs;
  has_transport = true;
  difficulty = 0;
  max_tx_per_block = 50;
  max_headers = 2000;
  syncer = new settings;
  mined_blocks = 0;
  received_blocks = 0;
  known_tx_ids = [];
  tx_store = [];
  pending_rpc = [];
}

node-IsSoundNode : IsSoundNode digests (configured settings) node
node-IsSoundNode = record {
  chain = start-IsValid;
  pool = two_txs-IsValid;
  sync = new-IsSound settings;
}

abbrev paid : Block
paid = record (above 19683 7) { txs = pay (text "y") ∷ [] }

abbrev result : AddResult
result = record { added = true; is_new_tip = true; old_tip = 19683; new_tip = 19705; reorg = none }

settle_mempool-SettledAs_example :
    SettledAs result.reorg result.is_new_tip paid (settle_mempool node result paid 25).mempool
settle_mempool-SettledAs_example = settle_mempool-SettledAs node result paid 25 two_txs-IsValid

abbrev events : List Event
events =
    submits (pay (text "z")) 30
    ∷ receives (record { from = text "p"; trace_id = []; body = block (some (above 19683 7)) }) 31
    ∷ receives (record { from = text "p"; trace_id = text "1"; body = get_tip }) 32
    ∷ receives (record { from = text "p"; trace_id = text "2"; body = get_headers [] (pos 5) }) 33
    ∷ cleans_mempool 34
    ∷ []

happen_all-IsSoundNode_example :
    (last : Node) × (happen_all digests keys node events ≡ some last)
    × IsSoundNode digests (configured settings) last
happen_all-IsSoundNode_example =
    happen_all-IsSoundNode digests keys (configured settings) events node node-IsSoundNode
      (tt, (tt, (tt, (tt, (tt, tt)))))
