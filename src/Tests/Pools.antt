-- ===== src/Tests/Pools.antt =====
-- The theorems on the mempool and on the peers at small ones.
use go_sim_chain.Prelude.{
  ℕ, ◌+◌, ◌≤◌, ◌≡◌, ◌≢◌, ◌⊎◌, List, [], ◌∷◌, ◌++◌, Option, none, some, true, false, arith, length,
  min, ltb, Text, text, text_instance,
}
use go_sim_chain.Prelude.Int.{pos, negsuc, pos_part}
use go_sim_chain.Map
use go_sim_chain.Map.{Map}
use go_sim_chain.Types.{Transaction}
use go_sim_chain.Mempool.{
  Mempool, Config, new, add, admit, pop, transactions, remove_by_id, clean_expired,
}
use go_sim_chain.Mempool.Valid.{IsValid}
use go_sim_chain.Mempool.Calls.{Fits, add_lem, pop-append}
use go_sim_chain.Mempool.Purge.{kept, remove_by_id-kept, clean_expired-kept}
use go_sim_chain.Mempool.Run.{Call, adds, pops, run, run-new-IsValid}
use go_sim_chain.Peer.{Info, Manager, ensure, cooling, best_of, update_tip, report_failure}
use go_sim_chain.Peer.Best.{IsChosen, best_of-IsChosen}
use go_sim_chain.Peer.Reports.{report_failure-cooling, update_tip-lookup}

abbrev limits : Config
limits = record {
  max_txs = pos 3;
  max_bytes = pos 500;
  ttl = pos 60;
  inv_broadcast_cooldown = pos 5;
}

abbrev pub pay : Text → Transaction
pay id = record { id = id; timestamp = pos 1; payload = text "pay" }

abbrev calls : List Call
calls = adds 10 (pay (text "x")) ∷ adds 20 (pay (text "y")) ∷ []

abbrev pub two_txs : Mempool
two_txs = run (new limits) calls

pub two_txs-IsValid : IsValid two_txs
two_txs-IsValid = run-new-IsValid limits calls

run-new-IsValid_example :
    IsValid
      (run (new limits) (adds 10 (pay (text "x")) ∷ pops (pos 1) ∷ adds 11 (pay (text "x")) ∷ []))
run-new-IsValid_example =
    run-new-IsValid limits (adds 10 (pay (text "x")) ∷ pops (pos 1) ∷ adds 11 (pay (text "x")) ∷ [])

add_lem_example :
    (Fits two_txs (pay (text "z"))
      × (add two_txs 30 (pay (text "z")) ≡ (admit two_txs 30 (pay (text "z")), true)))
    ⊎ ((Fits two_txs (pay (text "z")) → ⊥) × (add two_txs 30 (pay (text "z")) ≡ (two_txs, false)))
add_lem_example = add_lem two_txs 30 (pay (text "z")) two_txs-IsValid

pop-append_example :
    ((pop two_txs (pos 1)).1 ++ transactions (pop two_txs (pos 1)).0.txs ≡ transactions two_txs.txs)
    × (length (pop two_txs (pos 1)).1 ≡ min (pos_part (pos 1)) (length two_txs.txs))
pop-append_example = pop-append two_txs (pos 1)

abbrev chosen : Map Text (Unit {0})
chosen = (text "x", tt) ∷ []

remove_by_id-kept_example :
    IsValid (remove_by_id two_txs chosen)
    × ((remove_by_id two_txs chosen).txs ≡ kept (λ e. Map.has e.tx.id chosen) two_txs.txs)
remove_by_id-kept_example = remove_by_id-kept two_txs chosen two_txs-IsValid

clean_expired-kept_example :
    IsValid (clean_expired two_txs 75)
    × ((clean_expired two_txs 75).txs ≡ kept (λ e. ltb e.expires_at 75) two_txs.txs)
clean_expired-kept_example = clean_expired-kept two_txs 75 two_txs-IsValid

abbrev peer : Text → ℕ → ℕ → ℕ → Option ℕ → Info
peer id work height rtt until = record {
  id = id;
  tip_height = height;
  tip_hash = 9;
  cum_work = pos work;
  last_rtt = rtt;
  timeouts = 0;
  errors = 0;
  cooldown_until = until;
  last_successful = none;
  last_updated = none;
}

abbrev three_peers : List Info
three_peers =
    peer (text "a") 4 2 7 none
    ∷ peer (text "b") 4 2 5 (some 3)
    ∷ peer (text "c") 9 4 5 (some 60)
    ∷ []

best_of-IsChosen_example : IsChosen 10 three_peers (best_of 10 none three_peers)
best_of-IsChosen_example = best_of-IsChosen 10 three_peers

a-named : text "a" ≢ []
a-named = λ e. ground arith

abbrev manager : Manager
manager = record { peers = (text "b", peer (text "b") 4 2 5 none) ∷ []; backoff = 800 }

b-other : text "b" ≢ text "a"
b-other = λ e. ground arith

report_failure-cooling_example :
    ((p : Info) × (Map.lookup (text "a") (report_failure manager (text "a") true 5).peers ≡ some p)
      × (cooling p 700 ≡ ltb 700 (5 + 800))
      × (p.cum_work ≡ (ensure manager (text "a")).cum_work))
    × (Map.lookup (text "b") (report_failure manager (text "a") true 5).peers
        ≡ Map.lookup (text "b") manager.peers)
report_failure-cooling_example =
    report_failure-cooling manager (text "a") (text "b") true 5 700 a-named b-other

later : 11 ≤ 12
later = omega arith

update_tip-lookup_example :
    ((p : Info) × (Map.lookup
          (text "a")
          (update_tip manager (text "a") 7 8 (some (negsuc 8)) 10 11).peers
        ≡ some p)
      × (p.tip_height ≡ 7)
      × (p.tip_hash ≡ 8)
      × (p.cum_work ≡ negsuc 8)
      × (p.last_rtt ≡ 10)
      × (cooling p 12 ≡ cooling (ensure manager (text "a")) 12))
    × (Map.lookup (text "b") (update_tip manager (text "a") 7 8 (some (negsuc 8)) 10 11).peers
        ≡ Map.lookup (text "b") manager.peers)
update_tip-lookup_example =
    update_tip-lookup manager (text "a") (text "b") 7 8 (negsuc 8) 10 11 12 a-named b-other later
