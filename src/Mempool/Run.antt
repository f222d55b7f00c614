-- ===== src/Mempool/Run.antt =====
-- Any sequence of calls of the mempool's methods.
use go_sim_chain.Prelude.{ℕ, refl, List, [], ◌∷◌, arith, Text}
use go_sim_chain.Prelude.Int.{ℤ}
use go_sim_chain.Types.{Transaction}
use go_sim_chain.Map
use go_sim_chain.Map.{Map}
use go_sim_chain.Mempool.{
  Mempool, Config, new, add, pop, return_txs, remove_by_id, clean_expired, mark_broadcast,
}
use go_sim_chain.Mempool.Valid.{IsValid, Describes-fields}
use go_sim_chain.Mempool.Calls.{add-IsValid, pop-IsValid, return_txs-IsValid}
use go_sim_chain.Mempool.Purge.{remove_by_id-kept, clean_expired-kept}

-- The methods that change the mempool.
pub data Call : Type 0 where
  adds : ℕ → Transaction → Call
  pops : ℤ → Call
  returns : List (ℕ × Transaction) → Call
  removes : Map Text (Unit {0}) → Call
  cleans : ℕ → Call
  marks : ℕ → Text → Call

unfoldable pub step : Mempool → Call → Mempool
step m (adds now tx) = (add m now tx).0
step m (pops max) = (pop m max).0
step m (returns txs) = return_txs m txs
step m (removes ids) = remove_by_id m ids
step m (cleans now) = clean_expired m now
step m (marks now id) = mark_broadcast m now id

unfoldable pub run : Mempool → List Call → Mempool
unfolding step
run m [] = m
run m (c ∷ cs) = run (step m c) cs

new-IsValid : (c : Config) → IsValid (new c)
unfolding new Map.has Map.lookup
new-IsValid c = record {
  described = record { seen_ids = λ id. refl; expiry_ids = λ id. refl; distinct = tt; sized = tt };
  total = refl;
  few = omega arith;
  small = omega arith;
}

pub mark_broadcast-IsValid :
    (m : Mempool) (now : ℕ) (id : Text) → IsValid m → IsValid (mark_broadcast m now id)
unfolding mark_broadcast
mark_broadcast-IsValid m now id v = record {
  described = Describes-fields m _ m.txs refl refl v.described;
  total = v.total;
  few = v.few;
  small = v.small;
}

step-IsValid : (m : Mempool) (c : Call) → IsValid m → IsValid (step m c)
unfolding step
step-IsValid m (adds now tx) v = add-IsValid m now tx v
step-IsValid m (pops max) v = pop-IsValid m max v
step-IsValid m (returns txs) v = return_txs-IsValid m txs v
step-IsValid m (removes ids) v = (remove_by_id-kept m ids v).0
step-IsValid m (cleans now) v = (clean_expired-kept m now v).0
step-IsValid m (marks now id) v = mark_broadcast-IsValid m now id v

run-IsValid : (m : Mempool) (cs : List Call) → IsValid m → IsValid (run m cs)
unfolding run
run-IsValid m [] v = v
run-IsValid m (c ∷ cs) v = run-IsValid (step m c) cs (step-IsValid m c v)

-- After any calls on a new mempool its maps and byte count agree with its entries, no id is there
-- twice, and both limits hold.
pub run-new-IsValid : (c : Config) (cs : List Call) → IsValid (run (new c) cs)
run-new-IsValid c cs = run-IsValid (new c) cs (new-IsValid c)
