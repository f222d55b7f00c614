-- ===== src/Syncer/Metrics.antt =====
-- internal/syncer/metrics.go: how the peers have answered. Times and durations are nanoseconds; a zero
-- time is none. `getBestPeer` compares rates as floats and is not modelled; `dumpMetrics` is text.
use go_sim_chain.Prelude.{
  ℕ, ◌+◌, ◌-◌, ◌*◌, ◌/◌, Option, none, some, Bool, true, false, ltb, if◌then◌else◌, Text,
  text_instance,
}
use go_sim_chain.Map
use go_sim_chain.Map.{Map}

pub record PeerMetrics : Type 0 where
  pub peer_id : Text
  pub total_requests : ℕ
  pub success_count : ℕ
  pub failure_count : ℕ
  pub total_rtt : ℕ
  pub avg_rtt : ℕ
  pub last_timeout : Option ℕ
  pub consecutive_failures : ℕ
  pub last_success : Option ℕ

abbrev pub Tracker : Type 0
Tracker = Map Text PeerMetrics

unfoldable pub blank_metrics : Text → PeerMetrics
blank_metrics id = record {
  peer_id = id;
  total_requests = 0;
  success_count = 0;
  failure_count = 0;
  total_rtt = 0;
  avg_rtt = 0;
  last_timeout = none;
  consecutive_failures = 0;
  last_success = none;
}

-- The two branches of `recordRequest`; no request starts later than `now`.
unfoldable pub succeed : PeerMetrics → ℕ → ℕ → PeerMetrics
succeed m start now = record m {
  total_requests = m.total_requests + 1;
  success_count = m.success_count + 1;
  consecutive_failures = 0;
  last_success = some now;
  last_timeout = none;
  total_rtt = m.total_rtt + (now - start);
  avg_rtt = (m.total_rtt + (now - start)) / (m.success_count + 1);
}

unfoldable pub fail : PeerMetrics → ℕ → PeerMetrics
fail m now = record m {
  total_requests = m.total_requests + 1;
  failure_count = m.failure_count + 1;
  consecutive_failures = m.consecutive_failures + 1;
  last_timeout = some now;
}

unfoldable pub record_request : Tracker → Text → ℕ → Bool → ℕ → Tracker
unfolding blank_metrics succeed fail
record_request t id start success now =
    let m = Map.get_or id t (blank_metrics id) in
    Map.insert id (if success then succeed m start now else fail m now) t

unfoldable pub backs_off : PeerMetrics → ℕ → Bool
backs_off m now =
    if ltb 3 m.consecutive_failures
    then true
    else elim m.last_timeout [ none ↦ false | some at ↦ ltb (now - at) (30 * 1000000000) ]

unfoldable pub should_backoff_peer : Tracker → Text → ℕ → Bool
unfolding backs_off
should_backoff_peer t id now = elim (Map.lookup id t) [ none ↦ false | some m ↦ backs_off m now ]

unfoldable pub get_peer_metrics : Tracker → Text → Option PeerMetrics
get_peer_metrics t id = Map.lookup id t
