-- ===== src/Syncer/History.antt =====
-- internal/syncer/metrics.go: the counters of a peer against the record of its answers.
use go_sim_chain.Prelude.{
  ℕ, suc, ◌-◌, ◌≡◌, refl, sym, ◌∙◌, ap, subst, List, [], ◌∷◌, Option, none, some, Bool, false, not,
  ◌&&◌, ◌||◌, arith, ltb, if◌then◌else◌, Text, text_eq, text_eq_iff, text_instance, Bool-cases,
  Option-cases, inl, inr,
}
use go_sim_chain.Map
use go_sim_chain.Map.{Map}
use go_sim_chain.Syncer.Metrics.{
  PeerMetrics, Tracker, blank_metrics, succeed, fail, record_request, backs_off,
  should_backoff_peer,
}

-- A call of `recordRequest`: the peer, when the request started, whether it was answered, and when.
pub record Report : Type 0 where
  pub peer : Text
  pub start : ℕ
  pub answered : Bool
  pub at : ℕ

-- The newest report stands first.
abbrev pub recorded : List Report → Tracker
recorded [] = []
recorded (r ∷ log) = record_request (recorded log) r.peer r.start r.answered r.at

abbrev pub count_of : (Report → Bool) → List Report → ℕ
count_of p [] = 0
count_of p (r ∷ log) = if p r then suc (count_of p log) else count_of p log

-- The failures since the last answer of a peer.
abbrev pub failures_since : Text → List Report → ℕ
failures_since id [] = 0
failures_since id (r ∷ log) =
    if text_eq r.peer id
    then (if r.answered then 0 else suc (failures_since id log))
    else failures_since id log

-- When the last of these was, if there is one.
abbrev pub last_failure : Text → List Report → Option ℕ
last_failure id [] = none
last_failure id (r ∷ log) =
    if text_eq r.peer id then (if r.answered then none else some r.at) else last_failure id log

pub record Summary (id : Text) (log : List Report) (m : PeerMetrics) : Type 0 where
  pub total : m.total_requests ≡ count_of (λ r. text_eq r.peer id) log
  pub successes : m.success_count ≡ count_of (λ r. text_eq r.peer id && r.answered) log
  pub failures : m.failure_count ≡ count_of (λ r. text_eq r.peer id && not r.answered) log
  pub consecutive : m.consecutive_failures ≡ failures_since id log
  pub timeout : m.last_timeout ≡ last_failure id log

abbrev pub metrics_of : Text → Tracker → PeerMetrics
metrics_of id t = Map.get_or id t (blank_metrics id)

metrics_of-insert :
    (k id : Text) (m : PeerMetrics) (t : Tracker)
    → metrics_of id (Map.insert k m t) ≡ (if text_eq k id then m else metrics_of id t)
unfolding Map.get_or
metrics_of-insert k id m t = ground (arith, Map.lookup-insert k id m t)

-- The counters with one more report.
abbrev reported : Text → Report → PeerMetrics → PeerMetrics
reported id r m =
    if text_eq r.peer id then (if r.answered then succeed m r.start r.at else fail m r.at) else m

metrics_of-record_request :
    (id : Text) (r : Report) (t : Tracker)
    → metrics_of id (record_request t r.peer r.start r.answered r.at)
      ≡ reported id r (metrics_of id t)
unfolding record_request
metrics_of-record_request id r t =
    metrics_of-insert r.peer id _ t ∙ elim (Bool-cases (text_eq r.peer id)) [
      | inl same ↦
          subst
            (λ k.
              (if text_eq r.peer k
                then (if r.answered
                    then succeed (metrics_of r.peer t) r.start r.at
                    else fail (metrics_of r.peer t) r.at)
                else metrics_of k t)
              ≡ reported k r (metrics_of k t))
            ((text_eq_iff r.peer id).0 same) refl
      | inr other ↦ rw other refl
    ]

reported-Summary :
    (id : Text) (r : Report) (log : List Report) (m : PeerMetrics)
    → Summary id log m
    → Summary id (r ∷ log) (reported id r m)
unfolding succeed fail
reported-Summary id r log m v = record {
  total = ground (arith, v.total);
  successes = ground (arith, v.successes);
  failures = ground (arith, v.failures);
  consecutive = ground (arith, v.consecutive);
  timeout = ground (arith, v.timeout);
}

-- The counters of a peer in `peerMetrics` are what the record of all reports gives: how many reports
-- name it, how many of them are answers and how many failures, how many failures came since its last
-- answer, and the time of the last of these.
pub recorded-Summary :
    (id : Text) (log : List Report) → Summary id log (metrics_of id (recorded log))
unfolding blank_metrics Map.get_or Map.lookup
recorded-Summary id [] = record {
  total = refl;
  successes = refl;
  failures = refl;
  consecutive = refl;
  timeout = refl;
}
recorded-Summary id (r ∷ log) =
    subst (Summary id (r ∷ log)) (sym (metrics_of-record_request id r (recorded log)))
      (reported-Summary id r log _ (recorded-Summary id log))

should_backoff_peer-metrics :
    (t : Tracker) (id : Text) (now : ℕ)
    → should_backoff_peer t id now ≡ backs_off (metrics_of id t) now
unfolding should_backoff_peer backs_off Map.get_or blank_metrics
should_backoff_peer-metrics t id now = elim (Option-cases (Map.lookup id t)) [
  | inl e ↦ rw (e, should_backoff_peer, Map.get_or) refl
  | inr (m, e) ↦ rw (e, should_backoff_peer, Map.get_or) refl
]

-- The test of `shouldBackoffPeer` on these two counters.
abbrev pub must_wait : ℕ → Option ℕ → ℕ → Bool
must_wait failures last now =
    ltb 3 failures || elim last [ none ↦ false | some at ↦ ltb (now - at) 30000000000 ]

backs_off-must_wait :
    (m : PeerMetrics) (now : ℕ)
    → backs_off m now ≡ must_wait m.consecutive_failures m.last_timeout now
unfolding backs_off
backs_off-must_wait m now = ground arith

-- `shouldBackoffPeer` holds exactly where more than three failures of the peer came since its last
-- answer, or where the last of them came less than 30 seconds ago.
pub should_backoff_peer-recorded :
    (id : Text) (log : List Report) (now : ℕ)
    → should_backoff_peer (recorded log) id now
      ≡ must_wait (failures_since id log) (last_failure id log) now
should_backoff_peer-recorded id log now =
    let v = recorded-Summary id log in
    let m = metrics_of id (recorded log) in
    should_backoff_peer-metrics (recorded log) id now
    ∙ (backs_off-must_wait m now
        ∙ (ap (λ f. must_wait f m.last_timeout now) v.consecutive
            ∙ ap (λ o. must_wait (failures_since id log) o now) v.timeout))
