-- ===== src/Peer.antt =====
-- internal/peer/peermanager.go: what the node knows of its peers, and the choice of the best one.
-- Times and durations are nanoseconds; a zero time (`time.Time{}`) is none, and a zero RTT is 0.
pub mod Best
pub mod Reports
use go_sim_chain.Prelude.{
  ℕ, suc, ◌+◌, List, [], ◌∷◌, Option, none, some, Bool, true, false, map, ltb, ◌==◌, ◌&&◌, ◌||◌,
  if◌then◌else◌, length, Text, text_instance,
}
use go_sim_chain.Prelude.Int.{ℤ, pos, ltb_ℤ, or_default}
use go_sim_chain.Map
use go_sim_chain.Map.{Map}
use go_sim_chain.Types.{Hash, zero_hash}

pub record Info : Type 0 where
  pub id : Text
  pub tip_height : ℕ
  pub tip_hash : Hash
  pub cum_work : ℤ
  pub last_rtt : ℕ
  pub timeouts : ℕ
  pub errors : ℕ
  pub cooldown_until : Option ℕ
  pub last_successful : Option ℕ
  pub last_updated : Option ℕ

pub record Manager : Type 0 where
  pub peers : Map Text Info
  pub backoff : ℕ

unfoldable pub new_manager : ℤ → Manager
new_manager backoff = record { peers = []; backoff = or_default backoff 800000000 }

-- `&Info{ID: id, CumWork: big.NewInt(0)}`
unfoldable pub blank : Text → Info
blank id = record {
  id = id;
  tip_height = 0;
  tip_hash = zero_hash;
  cum_work = pos 0;
  last_rtt = 0;
  timeouts = 0;
  errors = 0;
  cooldown_until = none;
  last_successful = none;
  last_updated = none;
}

-- The entry that `ensureLocked` returns; the callers below write it back.
unfoldable pub ensure : Manager → Text → Info
unfolding blank
ensure m id = Map.get_or id m.peers (blank id)

unfoldable pub upsert : Manager → Text → Manager
unfolding blank
upsert m id =
    if length id == 0
    then m
    else if Map.has id m.peers
    then m
    else record m { peers = Map.insert id (blank id) m.peers }

-- `p.CooldownUntil.Before(now)`; the zero time is before any other, and clearing it changes nothing.
unfoldable pub clear_cooldown : Option ℕ → ℕ → Option ℕ
clear_cooldown none now = none
clear_cooldown (some t) now = if ltb t now then none else some t

-- `cum_work` is none for a nil `*big.Int`, which may be below 0, as a peer may say so.
unfoldable pub update_tip : Manager → Text → ℕ → Hash → Option ℤ → ℕ → ℕ → Manager
update_tip m id height tip_hash none rtt now = m
update_tip m id height tip_hash (some cum_work) rtt now =
    let p = ensure m id in
    if length id == 0 then m else record m {
      peers =
          Map.insert id
            (record p {
              tip_height = height;
              tip_hash = tip_hash;
              cum_work = cum_work;
              last_rtt = rtt;
              last_updated = some now;
              last_successful = some now;
              cooldown_until = clear_cooldown p.cooldown_until now;
            })
            m.peers;
    }

unfoldable pub report_failure : Manager → Text → Bool → ℕ → Manager
report_failure m id timeout now =
    let p = ensure m id in
    if length id == 0 then m else record m {
      peers =
          Map.insert id
            (record p {
              timeouts = if timeout then suc p.timeouts else p.timeouts;
              errors = if timeout then p.errors else suc p.errors;
              last_updated = some now;
              cooldown_until = some (now + m.backoff);
            })
            m.peers;
    }

unfoldable pub report_timeout : Manager → Text → ℕ → Manager
unfolding report_failure
report_timeout m id now = report_failure m id true now

unfoldable pub report_error : Manager → Text → ℕ → Manager
unfolding report_failure
report_error m id now = report_failure m id false now

-- `!p.CooldownUntil.IsZero() && p.CooldownUntil.After(now)`
unfoldable pub cooling : Info → ℕ → Bool
cooling p now = elim p.cooldown_until [ none ↦ false | some t ↦ ltb now t ]

-- One round of the loop of `BestPeer` past the cooldown test: whether `p` takes the place of `best`.
-- `CumWork` is never nil, since the entries are made and updated here.
unfoldable pub better : Info → Info → Bool
better p best =
    if ltb_ℤ best.cum_work p.cum_work
    then true
    else if ltb_ℤ p.cum_work best.cum_work
    then false
    else if ltb best.tip_height p.tip_height
    then true
    else if ltb p.tip_height best.tip_height
    then false
    else best.last_rtt == 0 || (ltb 0 p.last_rtt && ltb p.last_rtt best.last_rtt)

unfoldable pub consider : ℕ → Option Info → Info → Option Info
unfolding cooling better
consider now none p = if cooling p now then none else some p
consider now (some best) p =
    if cooling p now then some best else if better p best then some p else some best

unfoldable pub best_of : ℕ → Option Info → List Info → Option Info
unfolding consider
best_of now best [] = best
best_of now best (p ∷ ps) = best_of now (consider now best p) ps

-- `BestPeer`, where `range` yields the peers in the order of the map's entries; none stands for the
-- empty id.
unfoldable pub best_peer : Manager → ℕ → Option Info
unfolding best_of
best_peer m now = best_of now none (map (λ e. e.1) m.peers)

unfoldable pub snapshot : Manager → List Info
snapshot m = map (λ e. e.1) m.peers
