-- ===== src/Node/Answers.antt =====
-- Every message gets an answer, or none, and keeps the parts of the node sound.
use go_sim_chain.Prelude.{
  ℕ, ◌≡◌, refl, inl, inr, List, [], ◌∷◌, reverse, Option, none, some, Bool, false, not, ◌||◌, arith,
  ◌==◌, if◌then◌else◌, if_either, length, take, drop, ◌+◌, Text, text_instance, nat_eq, Bool-cases,
}
use go_sim_chain.Prelude.Int.{ℤ, pos, or_default}
use go_sim_chain.Map
use go_sim_chain.Map.{Map}
use go_sim_chain.Types.{Hash, Transaction, Block, BlockMeta, is_zero}
use go_sim_chain.Crypto.{Digests}
use go_sim_chain.Chain.State.{Blockchain, ok, tip_cum_work}
use go_sim_chain.Chain.Query.{
  main_chain_hashes, metas_from_locator, metas_of, common_index, index_from,
}
use go_sim_chain.Chain.Valid.{IsValid}
use go_sim_chain.Chain.MainChain.{main_chain_hashes-LeadsBack}
use go_sim_chain.Syncer.State.{Config, Syncer}
use go_sim_chain.Syncer.Handlers.{handle_block}
use go_sim_chain.Syncer.Sound.{IsSound}
use go_sim_chain.Syncer.Run.{IsHarmless, gets_blocks, handle_blocks-IsSound}
use go_sim_chain.Syncer.Handled.{
  handle_inv_tx-IsSound, handle_tx-IsSound, handle_inv_block-IsSound, handle_block-IsSound,
}
use go_sim_chain.Node.State.{Node, Sent, rpc_answered, has_tx}
use go_sim_chain.Node.Messages.{
  Body, inv_tx, get_tx, tx, inv_block, get_block, block, get_tip, other, get_headers, get_blocks,
  blocks, Incoming, try_deliver_rpc, header_limit, on_get_tip, on_get_headers, take_tx, take_blocks,
  dispatch_message, handle_message,
}
use go_sim_chain.Node.Sound.{IsSoundNode, with_syncer, on_new_blocks-Sound, accept_tx-Sound}

-- The first block of a batch is there, or nobody sent it.
abbrev pub IsFair : Body → Text → Type 0
IsFair (inv_tx _) from = Unit {0}
IsFair (get_tx _) from = Unit {0}
IsFair (tx _) from = Unit {0}
IsFair (inv_block _) from = Unit {0}
IsFair (get_block _) from = Unit {0}
IsFair (block _) from = Unit {0}
IsFair get_tip from = Unit {0}
IsFair other from = Unit {0}
IsFair (get_headers _ _) from = Unit {0}
IsFair (get_blocks _) from = Unit {0}
IsFair (blocks bs) from = IsHarmless (gets_blocks bs from 0)

IsHarmless-later :
    (bs : List (Option Block)) (from : Text) (now : ℕ)
    → IsFair (blocks bs) from
    → IsHarmless (gets_blocks bs from now)
IsHarmless-later [] from now h = tt
IsHarmless-later (none ∷ bs) from now h = h
IsHarmless-later (some b ∷ bs) from now h = tt

module _ (D : Digests) (order : Map Hash Block → List Hash) (c : Config) where
  -- An event that is no fault, and leaves the parts sound.
  abbrev pub Returns : Option (Node × List Sent) → Type 0
  Returns o = (r : Node × List Sent) × (o ≡ some r) × IsSoundNode D c r.0

  on_get_tip-Returns :
      (n : Node) (from trace : Text)
      → IsSoundNode D c n
      → Returns (elim (on_get_tip n from trace) [ none ↦ none | some out ↦ some (n, out) ])
  unfolding on_get_tip tip_cum_work
  on_get_tip-Returns n from trace v =
      if_either
        (λ (o : Option (List Sent)). Returns (elim o [ none ↦ none | some out ↦ some (n, out) ]))
        (length from == 0 || (length trace == 0 || not n.has_transport)) ((n, []), refl, v)
        (rw v.chain.tip_weighed (_, refl, v))

  main_chain_hashes-ok :
      (bc : Blockchain) → IsValid D bc → (hs : List Hash) × (main_chain_hashes bc ≡ ok hs)
  unfolding main_chain_hashes
  main_chain_hashes-ok bc v = elim (Bool-cases (is_zero bc.tip)) [
    | inl zero ↦ ([], rw (zero, main_chain_hashes) refl)
    | inr nonzero ↦
        let (hs, e, _, _) =
          main_chain_hashes-LeadsBack D bc v (λ z. absurd (ground (arith, z, nonzero))) in
        (reverse hs, e)
  ]

  metas_from_locator-ok :
      (bc : Blockchain) (hashes : List Hash) (max : ℤ)
      → IsValid D bc
      → (ms : List BlockMeta) × (metas_from_locator bc hashes max ≡ ok ms)
  unfolding metas_from_locator
  metas_from_locator-ok bc hashes max v =
      let (hs, e) = main_chain_hashes-ok bc v in
      (
        metas_of bc
            (take (or_default max 2000) (drop (common_index hashes (index_from 0 hs []) + 1) hs)),
        rw (e, metas_from_locator) refl,
      )

  on_get_headers-Returns :
      (n : Node) (hashes : List Hash) (max : ℤ) (from trace : Text)
      → IsSoundNode D c n
      → Returns
          (elim (on_get_headers n hashes max from trace) [ none ↦ none | some out ↦ some (n, out) ])
  unfolding on_get_headers
  on_get_headers-Returns n hashes max from trace v =
      let (ms, e) =
        metas_from_locator-ok n.chain hashes (pos (header_limit max n.max_headers)) v.chain in
      if_either
        (λ (o : Option (List Sent)). Returns (elim o [ none ↦ none | some out ↦ some (n, out) ]))
        (length from == 0 || (length trace == 0 || not n.has_transport)) ((n, []), refl, v)
        (rw e (_, refl, v))

  take_tx-Sound :
      (n : Node) (t : Transaction) (now : ℕ)
      → IsSoundNode D c n
      → IsSoundNode D c (take_tx n t now).0
  unfolding take_tx
  take_tx-Sound n t now v =
      let w = accept_tx-Sound D order c n t now v in
      if_either (λ (r : Node × List Sent). IsSoundNode D c r.0) n.syncer.cfg.has_on_tx
        (with_syncer D order c _ _ w (handle_tx-IsSound c _ t.id _ w.sync))
        (with_syncer D order c n _ v (handle_tx-IsSound c n.syncer t.id false v.sync))

  take_blocks-Sound :
      (n : Node) (r : Syncer × List Block) (from : Text) (now : ℕ)
      → IsSoundNode D c n
      → IsSound c r.0
      → IsSoundNode D c (take_blocks D order n r from now).0
  unfolding take_blocks
  take_blocks-Sound n (s, bs) from now v w =
      on_new_blocks-Sound D order c bs (record n { syncer = s }) from now
        (with_syncer D order c n s v w)

  body-Returns :
      (n : Node) (from trace : Text) (body : Body) (now : ℕ)
      → IsSoundNode D c n
      → IsFair body from
      → Returns
          (dispatch_message D order n (record { from = from; trace_id = trace; body = body }) now)
  unfolding dispatch_message
  body-Returns n from trace (inv_tx txid) now v _ = (
    _,
    refl,
    with_syncer D order c n _ v (handle_inv_tx-IsSound c n.syncer txid from (has_tx n txid) v.sync),
  )
  body-Returns n from trace (get_tx txid) now v _ = (_, refl, v)
  body-Returns n from trace (tx t) now v _ = (_, refl, take_tx-Sound n t now v)
  body-Returns n from trace (inv_block m) now v _ = (
    _,
    refl,
    with_syncer D order c n _ v (handle_inv_block-IsSound c D n.chain n.syncer m from now v.sync),
  )
  body-Returns n from trace (get_block h) now v _ = (_, refl, v)
  body-Returns n from trace (block b) now v _ = (
    _,
    refl,
    take_blocks-Sound n (handle_block D n.syncer b from now) from now v
        (handle_block-IsSound c D n.syncer b from now v.sync),
  )
  body-Returns n from trace get_tip now v _ = on_get_tip-Returns n from trace v
  body-Returns n from trace other now v _ = (_, refl, v)
  body-Returns n from trace (get_headers hashes max) now v _ =
      on_get_headers-Returns n hashes max from trace v
  body-Returns n from trace (get_blocks hashes) now v _ = (_, refl, v)
  body-Returns n from trace (blocks bs) now v fair =
      let (r, e, w) =
        handle_blocks-IsSound c D n.syncer bs from now v.sync (IsHarmless-later bs from now fair) in
      (
        take_blocks D order n r from now,
        rw (e, dispatch_message) refl,
        take_blocks-Sound n r from now v w,
      )

  pub handle_message-Returns :
      (n : Node) (m : Incoming) (now : ℕ)
      → IsSoundNode D c n
      → IsFair m.body m.from
      → Returns (handle_message D order n m now)
  unfolding handle_message try_deliver_rpc
  handle_message-Returns n m now v fair =
      let d = body-Returns n m.from m.trace_id m.body now v fair in
      let P = λ (x : Node × Bool). Returns (
        if x.1
        then some (x.0, rpc_answered m.trace_id ∷ [])
        else dispatch_message D order n m now) in
      if_either P (length m.trace_id == 0) d (
        if_either P (Map.has m.trace_id n.pending_rpc)
          (_, refl, record { chain = v.chain; pool = v.pool; sync = v.sync }) d)
