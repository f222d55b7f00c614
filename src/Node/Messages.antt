-- ===== src/Node/Messages.antt =====
-- internal/node/node.go: `HandleMessage` and the answers to requests.
use go_sim_chain.Prelude.{
  ℕ, List, [], ◌∷◌, map, Option, none, some, Bool, true, false, not, ◌||◌, ltb, ◌==◌, if◌then◌else◌,
  length, Text, text_instance,
}
use go_sim_chain.Prelude.Int.{ℤ, pos, negsuc}
use go_sim_chain.Map
use go_sim_chain.Map.{Map}
use go_sim_chain.Types.{Hash, Transaction, Block, BlockMeta}
use go_sim_chain.Crypto.{Digests}
use go_sim_chain.Chain.State.{Blockchain, ok, err, block_by_hash, tip_height, tip_cum_work}
use go_sim_chain.Chain.Query.{metas_from_locator}
use go_sim_chain.Syncer.State.{Syncer, Outgoing}
use go_sim_chain.Syncer.Handlers.{
  handle_inv_tx, handle_tx, handle_inv_block, handle_block, handle_blocks,
}
use go_sim_chain.Node.State.{
  Node, Sent, from_syncer, give_tx, give_block, give_tip, give_headers, give_blocks, rpc_answered,
  has_tx, accept_tx_from_peer,
}
use go_sim_chain.Node.Blocks.{on_new_blocks}

-- The payload of a message by its type; `other` is a type that has no case, or a payload of another type.
pub data Body : Type 0 where
  inv_tx get_tx : Text → Body
  tx : Transaction → Body
  inv_block : BlockMeta → Body
  get_block : Hash → Body
  block : Option Block → Body
  get_tip other : Body
  get_headers : List Hash → ℤ → Body
  get_blocks : List Hash → Body
  blocks : List (Option Block) → Body

pub record Incoming : Type 0 where
  pub from : Text
  pub trace_id : Text
  pub body : Body

-- The call that waits for `trace_id` gets the message.
unfoldable pub try_deliver_rpc : Node → Incoming → Node × Bool
try_deliver_rpc n m =
    if length m.trace_id == 0
    then (n, false)
    else if Map.has m.trace_id n.pending_rpc
    then (record n { pending_rpc = Map.delete m.trace_id n.pending_rpc }, true)
    else (n, false)

unfoldable pub on_get_tx : Node → Text → Text → List Sent
on_get_tx n txid requester =
    if length txid == 0 || (length requester == 0 || not n.has_transport)
    then []
    else elim (Map.lookup txid n.tx_store) [ none ↦ [] | some t ↦ give_tx requester t ∷ [] ]

unfoldable pub on_get_block : Node → Hash → Text → List Sent
on_get_block n h requester =
    if length requester == 0 || not n.has_transport
    then []
    else elim (block_by_hash n.chain h) [ none ↦ [] | some b ↦ give_block requester b ∷ [] ]

-- A tip without work is followed as a nil pointer: none.
unfoldable pub on_get_tip : Node → Text → Text → Option (List Sent)
on_get_tip n requester trace =
    if length requester == 0 || (length trace == 0 || not n.has_transport)
    then some []
    else elim (tip_cum_work n.chain) [
      | none ↦ none
      | some work ↦ some (give_tip requester trace n.chain.tip (tip_height n.chain) work ∷ [])
    ]

-- `if m <= 0 || m > n.maxHeaders { m = n.maxHeaders }`
abbrev pub header_limit : ℤ → ℕ → ℕ
header_limit (pos m) most = if m == 0 || ltb most m then most else m
header_limit (negsuc _) most = most

-- A walk that leaves the tree is none.
unfoldable pub on_get_headers : Node → List Hash → ℤ → Text → Text → Option (List Sent)
on_get_headers n hashes max requester trace =
    if length requester == 0 || (length trace == 0 || not n.has_transport)
    then some []
    else elim (metas_from_locator n.chain hashes (pos (header_limit max n.max_headers))) [
      | err e ↦ none
      | ok metas ↦ some (give_headers requester trace metas ∷ [])
    ]

unfoldable pub known_blocks : Blockchain → List Hash → List Block
known_blocks bc [] = []
known_blocks bc (h ∷ hs) =
    let rest = known_blocks bc hs in elim (block_by_hash bc h) [ none ↦ rest | some b ↦ b ∷ rest ]

unfoldable pub on_get_blocks : Node → List Hash → Text → Text → List Sent
unfolding known_blocks
on_get_blocks n hashes requester trace =
    if length requester == 0 || not n.has_transport
    then []
    else give_blocks requester trace (known_blocks n.chain hashes) ∷ []

abbrev pub by_syncer : Node → Syncer × List Outgoing → Node × List Sent
by_syncer n (s, out) = (record n { syncer = s }, map from_syncer out)

-- The synchroniser's `HandleTx` with `acceptTxFromPeer` as its `OnTx`.
unfoldable pub take_tx : Node → Transaction → ℕ → Node × List Sent
unfolding accept_tx_from_peer handle_tx
take_tx n t now =
    let (n', added) = accept_tx_from_peer n t now in
    if n.syncer.cfg.has_on_tx
    then by_syncer n' (handle_tx n'.syncer t.id added)
    else by_syncer n (handle_tx n.syncer t.id false)

module _ (D : Digests) (order : Map Hash Block → List Hash) where
  -- The synchroniser gives the blocks to `onNewBlock`.
  unfoldable pub take_blocks : Node → Syncer × List Block → Text → ℕ → Node × List Sent
  unfolding on_new_blocks
  take_blocks n (s, bs) from now = on_new_blocks D order (record n { syncer = s }) bs from now

  unfoldable pub dispatch_message : Node → Incoming → ℕ → Option (Node × List Sent)
  unfolding take_blocks take_tx on_get_tx on_get_block on_get_tip on_get_headers on_get_blocks
  dispatch_message n m now = elim m.body [
    | inv_tx txid ↦ some (by_syncer n (handle_inv_tx n.syncer txid m.from (has_tx n txid)))
    | get_tx txid ↦ some (n, on_get_tx n txid m.from)
    | tx t ↦ some (take_tx n t now)
    | inv_block meta ↦ some (by_syncer n (handle_inv_block D n.chain n.syncer meta m.from now))
    | get_block h ↦ some (n, on_get_block n h m.from)
    | block b ↦ some (take_blocks n (handle_block D n.syncer b m.from now) m.from now)
    | get_tip ↦ elim (on_get_tip n m.from m.trace_id) [ none ↦ none | some out ↦ some (n, out) ]
    | other ↦ some (n, [])
    | get_headers hashes max ↦ elim (on_get_headers n hashes max m.from m.trace_id) [
      | none ↦ none
      | some out ↦ some (n, out)
    ]
    | get_blocks hashes ↦ some (n, on_get_blocks n hashes m.from m.trace_id)
    | blocks bs ↦ elim (handle_blocks D n.syncer bs m.from now) [
      | none ↦ none
      | some r ↦ some (take_blocks n r m.from now)
    ]
  ]

  unfoldable pub handle_message : Node → Incoming → ℕ → Option (Node × List Sent)
  unfolding try_deliver_rpc dispatch_message
  handle_message n m now =
      let (n', delivered) = try_deliver_rpc n m in
      if delivered then some (n', rpc_answered m.trace_id ∷ []) else dispatch_message n m now
