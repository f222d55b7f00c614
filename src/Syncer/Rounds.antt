-- ===== src/Syncer/Rounds.antt =====
-- `probeTips` and `catchUpIfBehind` keep the invariant.
use go_sim_chain.Prelude.{
  ℕ, ◌+◌, refl, List, [], ◌∷◌, false, not, ◌&&◌, ◌||◌, leb, ltb, ◌==◌, if◌then◌else◌, length, Text,
  text_eq, nat_eq, if_either, option_either,
}
use go_sim_chain.Map.{Map}
use go_sim_chain.Types.{Hash, BlockMeta, is_zero}
use go_sim_chain.Chain.State.{Blockchain, has_block}
use go_sim_chain.Peer.{best_peer, report_timeout}
use go_sim_chain.Syncer.State.{
  Config, for_sync, BlockReq, HeadersResult, Syncer, Outgoing, syncing_headers,
}
use go_sim_chain.Syncer.Dispatch.{unusable}
use go_sim_chain.Syncer.Headers.{
  is_idle, wants_headers, wants_blocks, backs_off, TipAnswer, upsert_all, note_tip, note_tips,
  probe_tips, sync_work_done, headers_failed, queue_metas, begin_blocks, drain_result,
  drain_header_results, maybe_start_header_request, leave_backoff, is_behind, advance, choose_work,
  catch_up_if_behind,
}
use go_sim_chain.Syncer.Sound.{IsSound, IsSound-fields, enqueue_block-IsSound}
use go_sim_chain.Syncer.Retries.{
  enter_backoff-IsSound, reset_sync_state-IsSound, tick_inflight-IsSound,
}
use go_sim_chain.Syncer.Dispatched.{dispatch_queued_blocks-IsSound}

module _ (c : Config) where
  upsert_all-IsSound : (ps : List Text) (s : Syncer) → IsSound c s → IsSound c (upsert_all s ps)
  unfolding upsert_all
  upsert_all-IsSound [] s v = v
  upsert_all-IsSound (p ∷ ps) s v = upsert_all-IsSound ps _ (
      if_either (IsSound c) (length p == 0 || text_eq p s.cfg.node_id) v
        (IsSound-fields c s _ v refl refl refl refl refl))

  note_tip-IsSound :
      (s : Syncer) (a : TipAnswer) (now : ℕ) → IsSound c s → IsSound c (note_tip s a now)
  unfolding note_tip
  note_tip-IsSound s a now v =
      option_either (IsSound c) a.tip (IsSound-fields c s _ v refl refl refl refl refl)
        (λ x. IsSound-fields c s _ v refl refl refl refl refl)

  note_tips-IsSound :
      (answers : List TipAnswer) (s : Syncer) (now : ℕ)
      → IsSound c s
      → IsSound c (note_tips s answers now)
  unfolding note_tips
  note_tips-IsSound [] s now v = v
  note_tips-IsSound (a ∷ more) s now v =
      note_tips-IsSound more (note_tip s a now) now (note_tip-IsSound s a now v)

  pub probe_tips-IsSound :
      (s : Syncer) (ps : List Text) (answers : List TipAnswer) (now : ℕ)
      → IsSound c s
      → IsSound c (probe_tips s ps answers now)
  unfolding probe_tips
  probe_tips-IsSound s ps answers now v =
      if_either (IsSound c) (not s.cfg.has_transport || (not s.cfg.has_chain || not s.cfg.has_rpc))
        v (note_tips-IsSound answers _ now (upsert_all-IsSound ps s v))

  headers_failed-IsSound :
      (s : Syncer) (peer : Text) (now : ℕ) → IsSound c s → IsSound c (headers_failed s peer now)
  unfolding headers_failed
  headers_failed-IsSound s peer now v =
      let w : IsSound c (record s {
        peers = if length peer == 0 then s.peers else report_timeout s.peers peer now;
        header_retries = s.header_retries + 1;
      }) =
        IsSound-fields c s _ v refl refl refl refl refl in
      if_either (IsSound c) (leb s.cfg.header_retry_limit (s.header_retries + 1))
        (enter_backoff-IsSound c _ now w) w

  module _ (bc : Blockchain) where
    queue_metas-IsSound :
        (ms : List BlockMeta) (s : Syncer) (peer : Text)
        → IsSound c s
        → IsSound c (queue_metas bc s ms peer).0
    unfolding queue_metas
    queue_metas-IsSound [] s peer v = v
    queue_metas-IsSound (m ∷ ms) s peer v = queue_metas-IsSound ms _ peer (
        if_either (IsSound c) (is_zero m.hash || (s.cfg.has_chain && has_block bc m.hash)) v
          (enqueue_block-IsSound c bc s m.hash peer for_sync v))

    drain_result-IsSound :
        (s : Syncer) (r : HeadersResult) (now : ℕ)
        → IsSound c s
        → IsSound c (drain_result bc s r now).0
    unfolding drain_result begin_blocks
    drain_result-IsSound s r now v =
        let free =
          IsSound-fields c s (record s { header_req_in_flight = false }) v refl refl refl refl
            refl in
        let queued =
          queue_metas-IsSound r.metas
            (record s { header_req_in_flight = false; header_retries = 0 }) r.peer
            (IsSound-fields c s _ v refl refl refl refl refl) in
        let P = λ (x : Syncer × List Outgoing). IsSound c x.0 in
        let q =
          queue_metas bc (record s { header_req_in_flight = false; header_retries = 0 }) r.metas
            r.peer in
        if_either P (not r.answered) (headers_failed-IsSound _ r.peer now free) (
          if_either P q.1
            (dispatch_queued_blocks-IsSound c bc _ now
              (IsSound-fields c q.0 _ queued refl refl refl refl refl))
            queued)

    pub drain_header_results-IsSound :
        (rs : List HeadersResult) (s : Syncer) (now : ℕ)
        → IsSound c s
        → IsSound c (drain_header_results bc s rs now).0
    unfolding drain_header_results
    drain_header_results-IsSound [] s now v = v
    drain_header_results-IsSound (r ∷ rs) s now v =
        drain_header_results-IsSound rs (drain_result bc s r now).0 now
          (drain_result-IsSound s r now v)

    maybe_start_header_request-IsSound :
        (s : Syncer) (peer : Text)
        → IsSound c s
        → IsSound c (maybe_start_header_request bc s peer).0
    unfolding maybe_start_header_request
    maybe_start_header_request-IsSound s peer v =
        let P = λ (x : Syncer × List Outgoing). IsSound c x.0 in
        if_either P (not s.cfg.has_rpc || (not s.cfg.has_chain || unusable s peer)) v (
          if_either P (not (wants_headers s.state) || s.header_req_in_flight) v
            (IsSound-fields c s _ v refl refl refl refl refl))

    pub leave_backoff-IsSound :
        (s : Syncer) (now : ℕ) → IsSound c s → IsSound c (leave_backoff bc s now)
    unfolding leave_backoff
    leave_backoff-IsSound s now v =
        if_either (IsSound c) (backs_off s.state && ltb s.backoff_until now)
          (IsSound-fields c s _ v refl refl refl refl refl) v

    advance-IsSound : (s : Syncer) (best : Text) → IsSound c s → IsSound c (advance bc s best).0
    unfolding advance
    advance-IsSound s best v =
        let P = λ (x : Syncer × List Outgoing). IsSound c x.0 in
        if_either P (wants_headers s.state) (maybe_start_header_request-IsSound s _ v) (
          if_either P (wants_blocks s.state && sync_work_done s)
            (IsSound-fields c s _ v refl refl refl refl refl) v)

    pub choose_work-IsSound :
        (s : Syncer) (now : ℕ) → IsSound c s → IsSound c (choose_work bc s now).0
    unfolding choose_work
    choose_work-IsSound s now v =
        let P = λ (x : Syncer × List Outgoing). IsSound c x.0 in
        let started_with : Text → Syncer =
          λ id. record s { state = syncing_headers; sync_peer = id; header_retries = 0 } in
        option_either P (best_peer s.peers now) v (λ best. if_either P (length best.id == 0) v (
          if_either P (not (is_behind bc best)) (reset_sync_state-IsSound c s v) (
            if_either P (is_idle s.state)
              (advance-IsSound (started_with best.id) best.id
                (IsSound-fields c s _ v refl refl refl refl refl))
              (advance-IsSound s best.id v))))

    pub catch_up_if_behind-IsSound :
        (order : Map Hash BlockReq → List Hash) (s : Syncer) (rs : List HeadersResult) (now : ℕ)
        → IsSound c s
        → IsSound c (catch_up_if_behind bc order s rs now).0
    unfolding catch_up_if_behind
    catch_up_if_behind-IsSound order s rs now v =
        let v1 = tick_inflight-IsSound c order s now v in
        let v2 = dispatch_queued_blocks-IsSound c bc _ now v1 in
        let v3 = drain_header_results-IsSound rs _ now v2 in
        if_either (λ (x : Syncer × List Outgoing). IsSound c x.0) (not s.cfg.has_chain) v
          (choose_work-IsSound _ now (leave_backoff-IsSound _ now v3))
