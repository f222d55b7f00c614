-- ===== src/Peer/Reports.antt =====
-- What the reports on a peer change: the entry of that peer alone.
use go_sim_chain.Prelude.{
  ltb, ℕ, suc, ◌+◌, ◌≤◌, ◌≡◌, ◌≢◌, refl, [], ◌∷◌, some, Bool, false, arith, ◌==◌, if◌then◌else◌,
  Text, text_instance, length,
}
use go_sim_chain.Prelude.Int.{ℤ}
use go_sim_chain.Map
use go_sim_chain.Types.{Hash}
use go_sim_chain.Peer.{Info, Manager, cooling, ensure, update_tip, report_failure, clear_cooldown}

length-ne-zero : (id : Text) → id ≢ [] → (length id == 0) ≡ false
length-ne-zero [] h = absurd (h refl)
length-ne-zero (c ∷ cs) h = ground arith

-- After a failure of a named peer is reported, its entry cools down at exactly the times `t` before the
-- backoff is over, with the work it had; any other peer `j` is as it was.
pub report_failure-cooling :
    (m : Manager) (id j : Text) (timeout : Bool) (now t : ℕ)
    → id ≢ []
    → j ≢ id
    → ((p : Info) × (Map.lookup id (report_failure m id timeout now).peers ≡ some p)
        × (cooling p t ≡ ltb t (now + m.backoff))
        × (p.cum_work ≡ (ensure m id).cum_work))
      × (Map.lookup j (report_failure m id timeout now).peers ≡ Map.lookup j m.peers)
unfolding report_failure cooling
report_failure-cooling m id j timeout now t named other =
    let p = ensure m id in
    let q : Info = record p {
      timeouts = if timeout then suc p.timeouts else p.timeouts;
      errors = if timeout then p.errors else suc p.errors;
      last_updated = some now;
      cooldown_until = some (now + m.backoff);
    } in
    rw (length-ne-zero id named) (
      (q, Map.lookup-insert_self id q m.peers, refl, refl),
      Map.lookup-insert_ne id j q m.peers other,
    )

-- A new tip of a named peer is stored whole, and at any time `t` from now on the peer cools down just as
-- it would have; any other peer `j` is as it was.
pub update_tip-lookup :
    (m : Manager) (id j : Text) (height : ℕ) (tip : Hash) (work : ℤ) (rtt now t : ℕ)
    → id ≢ []
    → j ≢ id
    → now ≤ t
    → ((p : Info) × (Map.lookup id (update_tip m id height tip (some work) rtt now).peers ≡ some p)
        × (p.tip_height ≡ height)
        × (p.tip_hash ≡ tip)
        × (p.cum_work ≡ work)
        × (p.last_rtt ≡ rtt)
        × (cooling p t ≡ cooling (ensure m id) t))
      × (Map.lookup j (update_tip m id height tip (some work) rtt now).peers ≡ Map.lookup j m.peers)
unfolding update_tip cooling clear_cooldown
update_tip-lookup m id j height tip work rtt now t named other later =
    let p = ensure m id in
    let q : Info = record p {
      tip_height = height;
      tip_hash = tip;
      cum_work = work;
      last_rtt = rtt;
      last_updated = some now;
      last_successful = some now;
      cooldown_until = clear_cooldown p.cooldown_until now;
    } in
    rw (length-ne-zero id named) (
      (q, Map.lookup-insert_self id q m.peers, refl, refl, refl, refl, ground arith),
      Map.lookup-insert_ne id j q m.peers other,
    )
