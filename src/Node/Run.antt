-- ===== src/Node/Run.antt =====
-- A `Node` over any sequence of events.
use go_sim_chain.Prelude.{
  ℕ, ◌≡◌, refl, List, [], ◌∷◌, Option, none, some, Text, text_instance, nat_eq, All,
}
use go_sim_chain.Prelude.Int.{ℤ, pos}
use go_sim_chain.Map.{Map}
use go_sim_chain.Types.{Hash, Transaction, Block, BlockHeader}
use go_sim_chain.Crypto.{Digests}
use go_sim_chain.Mempool.{clean_expired}
use go_sim_chain.Mempool.Calls.{pop-IsValid, return_txs-IsValid}
use go_sim_chain.Mempool.Purge.{clean_expired-kept}
use go_sim_chain.Syncer.State.{Config, BlockReq, HeadersResult}
use go_sim_chain.Syncer.Headers.{TipAnswer, probe_tips, catch_up_if_behind}
use go_sim_chain.Syncer.Rounds.{probe_tips-IsSound, catch_up_if_behind-IsSound}
use go_sim_chain.Node.State.{Node, Sent, submit_transaction}
use go_sim_chain.Node.Blocks.{at_time, begin_round, found_nonce, stop_round}
use go_sim_chain.Node.Messages.{Incoming, by_syncer, handle_message}
use go_sim_chain.Node.Sound.{
  IsSoundNode, with_pool, with_syncer, submit_transaction-Sound, found_nonce-Sound,
}
use go_sim_chain.Node.Answers.{IsFair, Returns, handle_message-Returns}

-- What happens to a node.
pub data Event : Type 0 where
  receives : Incoming → ℕ → Event
  submits : Transaction → ℕ → Event
  catches_up : (Map Hash BlockReq → List Hash) → List HeadersResult → ℕ → Event
  probes : List Text → List TipAnswer → ℕ → Event
  begins_round : ℤ → Event
  finds_nonce : BlockHeader → ℕ → Hash → List Transaction → ℕ → Event
  stops_round : List Transaction → ℕ → Event
  cleans_mempool : ℕ → Event

module _ (D : Digests) (order : Map Hash Block → List Hash) where
  unfoldable pub happen : Node → Event → Option (Node × List Sent)
  happen n (receives m now) = handle_message D order n m now
  happen n (submits t now) = some (submit_transaction n t now)
  happen n (catches_up visit results now) =
      some (by_syncer n (catch_up_if_behind n.chain visit n.syncer results now))
  happen n (probes ps answers now) =
      some (record n { syncer = probe_tips n.syncer ps answers now }, [])
  happen n (begins_round time) = some ((begin_round D order n time).0, [])
  happen n (finds_nonce header nonce h txs now) =
      some (found_nonce D order n n.chain header nonce h txs now)
  happen n (stops_round txs now) = some (stop_round D order n txs now, [])
  happen n (cleans_mempool now) = some (record n { mempool = clean_expired n.mempool now }, [])

  unfoldable pub happen_all : Node → List Event → Option Node
  unfolding happen
  happen_all n [] = some n
  happen_all n (e ∷ es) = elim (happen n e) [ none ↦ none | some r ↦ happen_all r.0 es ]

abbrev pub IsFairEvent : Event → Type 0
IsFairEvent (receives m now) = IsFair m.body m.from
IsFairEvent (submits t now) = Unit {0}
IsFairEvent (catches_up visit results now) = Unit {0}
IsFairEvent (probes ps answers now) = Unit {0}
IsFairEvent (begins_round time) = Unit {0}
IsFairEvent (finds_nonce header nonce h txs now) = Unit {0}
IsFairEvent (stops_round txs now) = Unit {0}
IsFairEvent (cleans_mempool now) = Unit {0}

module _ (D : Digests) (order : Map Hash Block → List Hash) (c : Config) where
  happen-Returns :
      (n : Node) (e : Event)
      → IsSoundNode D c n
      → IsFairEvent e
      → Returns D order c (happen D order n e)
  unfolding happen begin_round stop_round
  happen-Returns n (receives m now) v fair = handle_message-Returns D order c n m now v fair
  happen-Returns n (submits t now) v _ = (_, refl, submit_transaction-Sound D order c n t now v)
  happen-Returns n (catches_up visit results now) v _ = (
    _,
    refl,
    with_syncer D order c n _ v
        (catch_up_if_behind-IsSound c n.chain visit n.syncer results now v.sync),
  )
  happen-Returns n (probes ps answers now) v _ =
      (_, refl, with_syncer D order c n _ v (probe_tips-IsSound c n.syncer ps answers now v.sync))
  happen-Returns n (begins_round time) v _ =
      (_, refl, with_pool D order c n _ v (pop-IsValid n.mempool (pos n.max_tx_per_block) v.pool))
  happen-Returns n (finds_nonce header nonce h txs now) v _ =
      (_, refl, found_nonce-Sound D order c n header nonce h txs now v)
  happen-Returns n (stops_round txs now) v _ =
      (_, refl, with_pool D order c n _ v (return_txs-IsValid n.mempool (at_time now txs) v.pool))
  happen-Returns n (cleans_mempool now) v _ =
      (_, refl, with_pool D order c n _ v (clean_expired-kept n.mempool now v.pool).0)

  -- A node whose parts are sound takes any sequence of events among which no batch of blocks from a
  -- peer begins with a nil block, and its parts are sound after it: the block tree is valid and its tip
  -- has the most work of all blocks, the mempool agrees with its maps and keeps its limits, and the
  -- synchroniser keeps its window and its queues.
  pub happen_all-IsSoundNode :
      (es : List Event) (n : Node)
      → IsSoundNode D c n
      → All IsFairEvent es
      → (last : Node) × (happen_all D order n es ≡ some last) × IsSoundNode D c last
  unfolding happen_all
  happen_all-IsSoundNode [] n v _ = (n, refl, v)
  happen_all-IsSoundNode (e ∷ es) n v (fair, rest) =
      let (r, same, w) = happen-Returns n e v fair in
      let (last, all_same, x) = happen_all-IsSoundNode es r.0 w rest in
      (last, rw (same, happen_all) all_same, x)
