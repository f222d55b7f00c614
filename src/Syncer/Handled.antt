-- ===== src/Syncer/Handled.antt =====
-- What the node passes on keeps the invariant.
use go_sim_chain.Prelude.{
  ℕ, refl, List, [], ◌∷◌, Option, none, some, Bool, not, ◌&&◌, ◌||◌, ltb, ◌==◌, length, Text,
  text_instance, nat_eq, if_either, option_either,
}
use go_sim_chain.Map
use go_sim_chain.Map.{Map}
use go_sim_chain.Types.{Hash, Block, BlockMeta, is_zero}
use go_sim_chain.Crypto.{Digests}
use go_sim_chain.Chain.State.{Blockchain, has_block}
use go_sim_chain.Syncer.State.{Config, for_inv, for_parent, Syncer, Outgoing}
use go_sim_chain.Syncer.Handlers.{
  on_block_arrived, note_answer, named_hash, handle_block, arrive_all, is_plausible,
  handle_inv_block, handle_inv_tx, handle_tx,
}
use go_sim_chain.Syncer.Sound.{
  IsSound, IsSound-fields, IsSound-window, IsWindow-delete, enqueue_block-IsSound,
}
use go_sim_chain.Syncer.Dispatched.{dispatch_queued_blocks-IsSound}

module _ (c : Config) where
  pub on_block_arrived-IsSound :
      (s : Syncer) (h : Hash) → IsSound c s → IsSound c (on_block_arrived s h)
  unfolding on_block_arrived
  on_block_arrived-IsSound s h v =
      if_either (IsSound c) (is_zero h) v
        (IsSound-window c s _ v (IsWindow-delete c s.inflight_blocks h v.window))

  pub note_answer-IsSound :
      (s : Syncer) (h : Hash) (from : Text) (now : ℕ)
      → IsSound c s
      → IsSound c (note_answer s h from now)
  unfolding note_answer
  note_answer-IsSound s h from now v =
      option_either (IsSound c) (Map.lookup h s.inflight_blocks) v (λ r.
        if_either (IsSound c) (length from == 0) v
          (IsSound-fields c s _ v refl refl refl refl refl))

  module _ (D : Digests) where
    pub handle_block-IsSound :
        (s : Syncer) (b : Option Block) (from : Text) (now : ℕ)
        → IsSound c s
        → IsSound c (handle_block D s b from now).0
    unfolding handle_block
    handle_block-IsSound s none from now v = v
    handle_block-IsSound s (some b) from now v =
        if_either (λ (x : Syncer × List Block). IsSound c x.0) (not s.cfg.has_on_block) v
          (on_block_arrived-IsSound _ (named_hash D b)
            (note_answer-IsSound s (named_hash D b) from now v))

    pub arrive_all-IsSound :
        (bs : List (Option Block)) (s : Syncer) → IsSound c s → IsSound c (arrive_all D s bs).0
    unfolding arrive_all
    arrive_all-IsSound [] s v = v
    arrive_all-IsSound (none ∷ bs) s v = arrive_all-IsSound bs s v
    arrive_all-IsSound (some b ∷ bs) s v =
        arrive_all-IsSound bs _ (on_block_arrived-IsSound s (named_hash D b) v)

    pub handle_inv_block-IsSound :
        (bc : Blockchain) (s : Syncer) (m : BlockMeta) (from : Text) (now : ℕ)
        → IsSound c s
        → IsSound c (handle_inv_block D bc s m from now).0
    unfolding handle_inv_block
    handle_inv_block-IsSound bc s m from now v =
        let P = λ (x : Syncer × List Outgoing). IsSound c x.0 in
        if_either P (not s.cfg.has_transport || not s.cfg.has_chain) v (
          if_either P (length from == 0 || is_zero m.hash) v (
            if_either P (has_block bc m.hash) v (
              if_either P (not (is_plausible D bc m)) v (
                dispatch_queued_blocks-IsSound c bc _ now (
                  enqueue_block-IsSound c bc _ m.hash from for_inv (
                    if_either (IsSound c)
                      (ltb 0 m.header.height
                        && (not (is_zero m.header.prev_hash)
                            && not (has_block bc m.header.prev_hash)))
                      (enqueue_block-IsSound c bc s m.header.prev_hash from for_parent v) v))))))

  pub handle_inv_tx-IsSound :
      (s : Syncer) (txid from : Text) (has : Bool)
      → IsSound c s
      → IsSound c (handle_inv_tx s txid from has).0
  unfolding handle_inv_tx
  handle_inv_tx-IsSound s txid from has v =
      let P = λ (x : Syncer × List Outgoing). IsSound c x.0 in
      if_either P (not s.cfg.has_transport || (length txid == 0 || length from == 0)) v (
        if_either P has v (
          if_either P (Map.has txid s.inflight_tx) v
            (IsSound-fields c s _ v refl refl refl refl refl)))

  pub handle_tx-IsSound :
      (s : Syncer) (txid : Text) (added : Bool) → IsSound c s → IsSound c (handle_tx s txid added).0
  unfolding handle_tx
  handle_tx-IsSound s txid added v =
      let P = λ (x : Syncer × List Outgoing). IsSound c x.0 in
      let forgotten : IsSound c (record s { inflight_tx = Map.delete txid s.inflight_tx }) =
        IsSound-fields c s _ v refl refl refl refl refl in
      if_either P (length txid == 0) v (
        if_either P (not s.cfg.has_on_tx) forgotten
          (if_either P (not added || not s.cfg.has_transport) forgotten forgotten))
