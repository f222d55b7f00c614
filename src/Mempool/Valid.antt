-- ===== src/Mempool/Valid.antt =====
-- The invariant of the mempool: its maps and its byte count agree with the list of entries.
use go_sim_chain.Prelude.{
  ℕ, ◌+◌, ◌≤◌, ◌≡◌, refl, List, [], ◌∷◌, ◌++◌, Bool, false, ◌||◌, arith, length, Text, text_eq,
  text_eq_iff, text_instance, if◌then◌else◌,
}
use go_sim_chain.Map
use go_sim_chain.Mempool.{Mempool, TxEntry, estimate_tx_size}

abbrev pub holds : Text → List TxEntry → Bool
holds id [] = false
holds id (e ∷ es) = text_eq e.tx.id id || holds id es

abbrev pub sum_sizes : List TxEntry → ℕ
sum_sizes [] = 0
sum_sizes (e ∷ es) = e.size + sum_sizes es

-- No two entries have the same transaction id.
abbrev pub Distinct : List TxEntry → Type 0
Distinct [] = Unit {0}
Distinct (e ∷ es) = (holds e.tx.id es ≡ false) × Distinct es

-- Each entry has the size that `estimateTxSize` gives.
abbrev pub Sized : List TxEntry → Type 0
Sized [] = Unit {0}
Sized (e ∷ es) = (e.size ≡ estimate_tx_size e.tx) × Sized es

-- The maps of `m` describe the entries `es`.
pub record Describes (m : Mempool) (es : List TxEntry) : Type 0 where
  pub seen_ids : (id : Text) → Map.has id m.seen ≡ holds id es
  pub expiry_ids : (id : Text) → Map.has id m.tx_expiry ≡ holds id es
  pub distinct : Distinct es
  pub sized : Sized es

pub record IsValid (m : Mempool) : Type 0 where
  pub described : Describes m m.txs
  pub total : m.total_bytes ≡ sum_sizes m.txs
  pub few : length m.txs ≤ m.cfg.max_txs
  pub small : m.total_bytes ≤ m.cfg.max_bytes

pub holds-append :
    (id : Text) (es fs : List TxEntry) → holds id (es ++ fs) ≡ (holds id es || holds id fs)
holds-append id [] fs = refl
holds-append id (e ∷ es) fs = ground (arith, holds-append id es fs)

pub sum_sizes-append : (es fs : List TxEntry) → sum_sizes (es ++ fs) ≡ sum_sizes es + sum_sizes fs
sum_sizes-append [] fs = omega arith
sum_sizes-append (e ∷ es) fs = omega (arith, sum_sizes-append es fs)

pub Sized-append : (es fs : List TxEntry) → Sized es → Sized fs → Sized (es ++ fs)
Sized-append [] fs h k = k
Sized-append (e ∷ es) fs h k = (h.0, Sized-append es fs h.1 k)

-- An id that no entry has can be added at the end.
pub Distinct-snoc :
    (es : List TxEntry) (e : TxEntry)
    → Distinct es
    → holds e.tx.id es ≡ false
    → Distinct (es ++ e ∷ [])
Distinct-snoc [] e d h = (refl, tt)
Distinct-snoc (f ∷ es) e d h = (
  ground (
    arith,
    holds-append f.tx.id es (e ∷ []),
    text_eq_iff e.tx.id f.tx.id,
    text_eq_iff f.tx.id e.tx.id,
  ),
  Distinct-snoc es e d.1 (ground arith),
)

-- Membership tests of a map, in `if` form.
pub has-insert {ℓ} :
    {V : Type ℓ} (k j : Text) (v : V) (m : Map.Map Text V)
    → Map.has j (Map.insert k v m) ≡ (text_eq k j || Map.has j m)
unfolding Map.has
has-insert k j v m = ground (arith, Map.lookup-insert k j v m)

pub has-delete {ℓ} :
    {V : Type ℓ} (k j : Text) (m : Map.Map Text V)
    → Map.has j (Map.delete k m) ≡ (if text_eq k j then false else Map.has j m)
unfolding Map.has
has-delete k j m = ground (arith, Map.lookup-delete k j m)

pub Describes-fields :
    (m m' : Mempool) (es : List TxEntry)
    → m'.seen ≡ m.seen
    → m'.tx_expiry ≡ m.tx_expiry
    → Describes m es
    → Describes m' es
Describes-fields m m' es p q d = record {
  seen_ids = λ id. rw p (d.seen_ids id);
  expiry_ids = λ id. rw q (d.expiry_ids id);
  distinct = d.distinct;
  sized = d.sized;
}
