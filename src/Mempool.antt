-- ===== src/Mempool.antt =====
-- internal/mempool/mempool.go: pending transactions in arrival order, under limits. `time.Now()` is an
-- argument of each call, in nanoseconds; the lock makes each call one step.
pub mod Valid
pub mod Purge
pub mod Calls
pub mod Run
use go_sim_chain.Prelude.{
  ℕ, zero, suc, ◌+◌, ◌-◌, ◌*◌, List, [], ◌∷◌, ◌++◌, Option, none, some, Bool, true, false, map, ltb,
  leb, ◌==◌, ◌||◌, if◌then◌else◌, length, take, drop, Text, text_instance,
}
use go_sim_chain.Prelude.Int.{ℤ, pos, negsuc, or_default}
use go_sim_chain.Map
use go_sim_chain.Map.{Map}
use go_sim_chain.Types.{Transaction}

-- The configuration as given; `new` puts defaults for what is not positive.
pub record Config : Type 0 where
  pub max_txs : ℤ
  pub max_bytes : ℤ
  pub ttl : ℤ
  pub inv_broadcast_cooldown : ℤ

-- The configuration as `new` leaves it.
pub record Limits : Type 0 where
  pub max_txs : ℕ
  pub max_bytes : ℕ
  pub ttl : ℕ
  pub inv_broadcast_cooldown : ℕ

pub record TxEntry : Type 0 where
  pub tx : Transaction
  pub added_at : ℕ
  pub expires_at : ℕ
  pub size : ℕ

pub record Mempool : Type 0 where
  pub cfg : Limits
  pub txs : List TxEntry
  pub seen : Map Text (Unit {0})
  pub tx_expiry : Map Text ℕ
  pub total_bytes : ℕ
  pub last_inv_broadcast : Map Text ℕ

abbrev pub second : ℕ
second = 1000000000

unfoldable pub default_config : Config
default_config = record {
  max_txs = pos 5000;
  max_bytes = pos (10 * 1024 * 1024);
  ttl = pos (10 * 60 * second);
  inv_broadcast_cooldown = pos (30 * second);
}

unfoldable pub new : Config → Mempool
new c = record {
  cfg = record {
    max_txs = or_default c.max_txs 5000;
    max_bytes = or_default c.max_bytes (10 * 1024 * 1024);
    ttl = or_default c.ttl (10 * 60 * second);
    inv_broadcast_cooldown = or_default c.inv_broadcast_cooldown (30 * second);
  };
  txs = [];
  seen = [];
  tx_expiry = [];
  total_bytes = 0;
  last_inv_broadcast = [];
}

unfoldable pub estimate_tx_size : Transaction → ℕ
estimate_tx_size tx = length tx.id + length tx.payload + 8 + 100

-- The writes of `Add` once it has passed the checks.
unfoldable pub admit : Mempool → ℕ → Transaction → Mempool
admit m now tx = record m {
  txs =
      m.txs
      ++ (record {
        tx = tx;
        added_at = now;
        expires_at = now + m.cfg.ttl;
        size = estimate_tx_size tx;
      }
          ∷ []);
  seen = Map.insert tx.id tt m.seen;
  tx_expiry = Map.insert tx.id (now + m.cfg.ttl) m.tx_expiry;
  total_bytes = m.total_bytes + estimate_tx_size tx;
}

unfoldable pub add : Mempool → ℕ → Transaction → Mempool × Bool
unfolding admit
add m now tx =
    if Map.has tx.id m.seen
    then (m, false)
    else if leb m.cfg.max_txs (length m.txs)
    then (m, false)
    else if ltb m.cfg.max_bytes (m.total_bytes + estimate_tx_size tx)
    then (m, false)
    else (admit m now tx, true)

-- One round of the loop of `Pop`.
unfoldable pub release : Mempool → TxEntry → Mempool
release m entry = record m {
  seen = Map.delete entry.tx.id m.seen;
  tx_expiry = Map.delete entry.tx.id m.tx_expiry;
  last_inv_broadcast = Map.delete entry.tx.id m.last_inv_broadcast;
  total_bytes = m.total_bytes - entry.size;
}

unfoldable pub release_all : Mempool → List TxEntry → Mempool
unfolding release
release_all m [] = m
release_all m (entry ∷ entries) = release_all (release m entry) entries

abbrev pub transactions : List TxEntry → List Transaction
transactions = map (λ e. e.tx)

-- `Pop` for a positive `max`; `take` and `drop` bound it by the length.
unfoldable pub pop_up_to : Mempool → ℕ → Mempool × List Transaction
unfolding release_all
pop_up_to m n =
    let rest = drop n m.txs in
    let m' = release_all m (take n m.txs) in
    (
      record m' { txs = rest; total_bytes = if length rest == 0 then 0 else m'.total_bytes },
      transactions (take n m.txs),
    )

unfoldable pub pop : Mempool → ℤ → Mempool × List Transaction
unfolding pop_up_to
pop m (pos zero) = (m, [])
pop m (pos (suc n)) = if length m.txs == 0 then (m, []) else pop_up_to m (suc n)
pop m (negsuc n) = (m, [])

-- `Return`: each transaction with the time of its `Add`.
unfoldable pub return_txs : Mempool → List (ℕ × Transaction) → Mempool
unfolding add
return_txs m [] = m
return_txs m ((now, tx) ∷ txs) = return_txs (add m now tx).0 txs

-- The loop that `RemoveByID` and `CleanExpired` share: `goes` is the test of the entry, and
-- `forget` what is deleted with it.
module _ (goes : TxEntry → Bool) (forget : Mempool → Text → Mempool) where
  unfoldable pub keep_or_forget : Mempool → TxEntry → Mempool
  keep_or_forget m entry =
      if goes entry
      then forget m entry.tx.id
      else record m { txs = m.txs ++ (entry ∷ []); total_bytes = m.total_bytes + entry.size }

  unfoldable pub purge_loop : Mempool → List TxEntry → Mempool
  unfolding keep_or_forget
  purge_loop m [] = m
  purge_loop m (entry ∷ entries) = purge_loop (keep_or_forget m entry) entries

  unfoldable pub purge : Mempool → Mempool
  unfolding purge_loop
  purge m = purge_loop (record m { txs = []; total_bytes = 0 }) m.txs

-- What `RemoveByID` deletes: the time of the last broadcast stays.
unfoldable pub forget_removed : Mempool → Text → Mempool
forget_removed m id = record m {
  seen = Map.delete id m.seen;
  tx_expiry = Map.delete id m.tx_expiry;
}

unfoldable pub forget_expired : Mempool → Text → Mempool
forget_expired m id = record m {
  seen = Map.delete id m.seen;
  tx_expiry = Map.delete id m.tx_expiry;
  last_inv_broadcast = Map.delete id m.last_inv_broadcast;
}

unfoldable pub remove_by_id : Mempool → Map Text (Unit {0}) → Mempool
unfolding purge forget_removed
remove_by_id m ids =
    if length ids == 0 || length m.txs == 0
    then m
    else purge (λ e. Map.has e.tx.id ids) forget_removed m

unfoldable pub clean_expired : Mempool → ℕ → Mempool
unfolding purge forget_expired
clean_expired m now = purge (λ e. ltb e.expires_at now) forget_expired m

unfoldable pub size : Mempool → ℕ
size m = length m.txs

-- `Snapshot`: a negative `max` takes all.
unfoldable pub snapshot : Mempool → ℤ → List Transaction
snapshot m (pos n) = transactions (take n m.txs)
snapshot m (negsuc n) = transactions m.txs

-- `time.Since(lastTime) >= cooldown`, with the subtraction brought over.
unfoldable pub can_broadcast : Mempool → ℕ → Text → Bool
can_broadcast m now txid = elim (Map.lookup txid m.last_inv_broadcast) [
  | none ↦ true
  | some last ↦ leb (last + m.cfg.inv_broadcast_cooldown) now
]

unfoldable pub mark_broadcast : Mempool → ℕ → Text → Mempool
mark_broadcast m now txid = record m {
  last_inv_broadcast = Map.insert txid now m.last_inv_broadcast;
}
