-- ===== src/Node/Sound.antt =====
-- What blocks and transactions do to a node keeps its parts sound.
use go_sim_chain.Prelude.{
  ℕ, List, [], ◌∷◌, ◌+◌, some, Bool, true, not, ◌&&◌, ◌==◌, if◌then◌else◌, if_either, if_cases,
  option_either, length, Text, text_instance, nat_eq,
}
use go_sim_chain.Map.{Map}
use go_sim_chain.Types.{Hash, Transaction, Block, BlockHeader}
use go_sim_chain.Crypto.{Digests}
use go_sim_chain.Chain.State.{Blockchain, AddResult, Error, Reorg, Result, ok, err}
use go_sim_chain.Chain.Add.{add_block}
use go_sim_chain.Chain.Valid as ChainValid
use go_sim_chain.Chain.Advance.{add_block-Advances}
use go_sim_chain.Mempool.{Mempool, add, return_txs, can_broadcast}
use go_sim_chain.Mempool.Valid as PoolValid
use go_sim_chain.Mempool.Calls.{add-IsValid, return_txs-IsValid}
use go_sim_chain.Mempool.Purge.{remove_by_id-kept}
use go_sim_chain.Mempool.Run.{mark_broadcast-IsValid}
use go_sim_chain.Syncer.State.{Config, Syncer}
use go_sim_chain.Syncer.Sound.{IsSound}
use go_sim_chain.Node.State.{
  Node, Sent, remember_tx, has_tx, submit_transaction, accept_tx_from_peer,
}
use go_sim_chain.Node.Blocks.{
  ids_of_txs, at_time, settle_mempool, apply_reorg, remove_txs_from_block, on_new_block,
  on_new_blocks, found_nonce,
}
use go_sim_chain.Node.Cleared.{apply_reorg-ClearedOf}

-- The parts of a node are sound.
pub record IsSoundNode (D : Digests) (c : Config) (n : Node) : Type 0 where
  pub chain : ChainValid.IsValid D n.chain
  pub pool : PoolValid.IsValid n.mempool
  pub sync : IsSound c n.syncer

result_either {ℓ κ μ} :
    {A : Type ℓ} {B : Type μ} (P : A → Type κ) (r : Result B) {f : Error → A} {g : B → A}
    → ((e : Error) → P (f e))
    → ((b : B) → P (g b))
    → P (elim r [ err e ↦ f e | ok b ↦ g b ])
result_either P (err e) p q = p e
result_either P (ok b) p q = q b

module _ (D : Digests) (order : Map Hash Block → List Hash) (c : Config) where
  abbrev pub Sound : Node → Type 0
  Sound n = IsSoundNode D c n

  pub with_pool :
      (n : Node) (m : Mempool) → Sound n → PoolValid.IsValid m → Sound (record n { mempool = m })
  with_pool n m v p = record { chain = v.chain; pool = p; sync = v.sync }

  pub with_chain :
      (n : Node) (bc : Blockchain)
      → Sound n
      → ChainValid.IsValid D bc
      → Sound (record n { chain = bc })
  with_chain n bc v p = record { chain = p; pool = v.pool; sync = v.sync }

  pub with_syncer :
      (n : Node) (s : Syncer) → Sound n → IsSound c s → Sound (record n { syncer = s })
  with_syncer n s v p = record { chain = v.chain; pool = v.pool; sync = p }

  apply_reorg-Sound : (n : Node) (r : Reorg) (now : ℕ) → Sound n → Sound (apply_reorg n r now)
  unfolding apply_reorg
  apply_reorg-Sound n r now v = with_pool n _ v (apply_reorg-ClearedOf n r now v.pool).0

  remove_txs-Sound : (n : Node) (b : Block) → Sound n → Sound (remove_txs_from_block n b)
  unfolding remove_txs_from_block
  remove_txs-Sound n b v =
      if_cases Sound (length b.txs == 0) (λ _. v)
        (λ some_txs. with_pool n _ v (remove_by_id-kept n.mempool (ids_of_txs b.txs []) v.pool).0)

  settle_mempool-Sound :
      (n : Node) (res : AddResult) (b : Block) (now : ℕ)
      → Sound n
      → Sound (settle_mempool n res b now)
  unfolding settle_mempool
  settle_mempool-Sound n res b now v =
      option_either Sound res.reorg (if_either Sound res.is_new_tip (remove_txs-Sound n b v) v)
        (λ r. apply_reorg-Sound n r now v)

  on_new_block-Sound :
      (n : Node) (b : Block) (from : Text) (now : ℕ)
      → Sound n
      → Sound (on_new_block D order n b from now).0
  unfolding on_new_block
  on_new_block-Sound n b from now v =
      let P = λ (x : Node × List Sent). Sound x.0 in
      let a = add_block-Advances D order n.chain v.chain (some b) in
      let w = with_chain n _ v a.valid in
      result_either P (add_block D order n.chain (some b)).1 (λ e. w)
        (λ res. if_either P (not res.added) w (
          settle_mempool-Sound
            (record n {
              chain = (add_block D order n.chain (some b)).0;
              received_blocks = n.received_blocks + 1;
            })
            res b now (record { chain = a.valid; pool = v.pool; sync = v.sync })))

  pub on_new_blocks-Sound :
      (bs : List Block) (n : Node) (from : Text) (now : ℕ)
      → Sound n
      → Sound (on_new_blocks D order n bs from now).0
  unfolding on_new_blocks
  on_new_blocks-Sound [] n from now v = v
  on_new_blocks-Sound (b ∷ bs) n from now v =
      on_new_blocks-Sound bs (on_new_block D order n b from now).0 from now
        (on_new_block-Sound n b from now v)

  -- A sound state, whatever was sent.
  abbrev pub SoundAfter : Node × List Sent → Type 0
  SoundAfter r = Sound r.0

  pub accept_tx-Sound :
      (n : Node) (tx : Transaction) (now : ℕ) → Sound n → Sound (accept_tx_from_peer n tx now).0
  unfolding accept_tx_from_peer remember_tx
  accept_tx-Sound n tx now v =
      let P = λ (x : Node × Bool). Sound x.0 in
      let p = add-IsValid n.mempool now tx v.pool in
      if_either P (length tx.id == 0) v (
        if_either P (has_tx n tx.id) v (
          if_either P (not (add n.mempool now tx).1) (with_pool n _ v p)
            (record { chain = v.chain; pool = p; sync = v.sync })))

  pub submit_transaction-Sound :
      (n : Node) (tx : Transaction) (now : ℕ) → Sound n → Sound (submit_transaction n tx now).0
  unfolding submit_transaction remember_tx
  submit_transaction-Sound n tx now v =
      let p = add-IsValid n.mempool now tx v.pool in
      let m = (add n.mempool now tx).0 in
      let n' =
        if (add n.mempool now tx).1
        then remember_tx (record n { mempool = m }) tx
        else record n { mempool = m } in
      let w : Sound n' =
        if_either Sound (add n.mempool now tx).1
          (record { chain = v.chain; pool = p; sync = v.sync }) (with_pool n m v p) in
      if_either SoundAfter
        (not (if (add n.mempool now tx).1 then true else can_broadcast n'.mempool now tx.id)) w
        (if_either SoundAfter (not n.has_transport) w (
          if_either SoundAfter (not (add n.mempool now tx).1 && not (has_tx n' tx.id)) w
            (with_pool n' _ w (mark_broadcast-IsValid n'.mempool now tx.id w.pool))))

  pub found_nonce-Sound :
      (n : Node) (header : BlockHeader) (nonce : ℕ) (h : Hash) (txs : List Transaction) (now : ℕ)
      → Sound n
      → Sound (found_nonce D order n n.chain header nonce h txs now).0
  unfolding found_nonce
  found_nonce-Sound n header nonce h txs now v =
      let b : Block = record { header = header; nonce = nonce; hash = h; txs = txs } in
      let a = add_block-Advances D order n.chain v.chain (some b) in
      let p = return_txs-IsValid n.mempool (at_time now txs) v.pool in
      let taken = with_chain n _ v a.valid in
      let back : Sound (record n {
        mempool = return_txs n.mempool (at_time now txs);
        chain = (add_block D order n.chain (some b)).0;
      }) =
        record { chain = a.valid; pool = p; sync = v.sync } in
      if_either SoundAfter (not (n.chain.tip == header.prev_hash)) (with_pool n _ v p) (
        result_either SoundAfter (add_block D order n.chain (some b)).1 (λ e. back)
          (λ res.
            let switched =
              option_either Sound res.reorg taken (λ r. apply_reorg-Sound _ r now taken) in
            let settled = if_either Sound res.is_new_tip (remove_txs-Sound _ b switched) switched in
            if_either SoundAfter (not res.added) back
              (record { chain = settled.chain; pool = settled.pool; sync = settled.sync })))
