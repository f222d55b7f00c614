-- ===== src/Mempool/Purge.antt =====
-- `RemoveByID` and `CleanExpired`: exactly the entries that pass the test go, and the rest keep their
-- order.
use mathlib.Core.List.{append-nil, append_assoc}
use go_sim_chain.Prelude.{
  ℕ, ◌+◌, ◌≤◌, ◌≡◌, refl, sym, ◌∙◌, ap, inl, inr, List, [], ◌∷◌, ◌++◌, Bool, true, false, ◌||◌,
  arith, length, Text, text_eq, text_eq_iff, text_instance, if◌then◌else◌, Bool-cases, ltb, ◌==◌,
}
use go_sim_chain.Map
use go_sim_chain.Map.{Map}
use go_sim_chain.Mempool.{
  Mempool, TxEntry, keep_or_forget, purge_loop, purge, forget_removed, forget_expired, remove_by_id,
  clean_expired,
}
use go_sim_chain.Mempool.Valid.{
  holds, sum_sizes, Distinct, Sized, Describes, IsValid, sum_sizes-append, has-delete,
  Describes-fields,
}

-- The entries that stay.
abbrev pub kept : (TxEntry → Bool) → List TxEntry → List TxEntry
kept goes [] = []
kept goes (e ∷ es) = if goes e then kept goes es else e ∷ kept goes es

-- What `forget` does to the fields that the invariant reads.
record Forgets (forget : Mempool → Text → Mempool) : Type 0 where
  seen_same : (m : Mempool) (id : Text) → (forget m id).seen ≡ Map.delete id m.seen
  expiry_same : (m : Mempool) (id : Text) → (forget m id).tx_expiry ≡ Map.delete id m.tx_expiry
  txs_same : (m : Mempool) (id : Text) → (forget m id).txs ≡ m.txs
  total_same : (m : Mempool) (id : Text) → (forget m id).total_bytes ≡ m.total_bytes
  cfg_same : (m : Mempool) (id : Text) → (forget m id).cfg ≡ m.cfg

forget_removed-Forgets : Forgets forget_removed
unfolding forget_removed
forget_removed-Forgets = record {
  seen_same = λ m id. refl;
  expiry_same = λ m id. refl;
  txs_same = λ m id. refl;
  total_same = λ m id. refl;
  cfg_same = λ m id. refl;
}

forget_expired-Forgets : Forgets forget_expired
unfolding forget_expired
forget_expired-Forgets = record {
  seen_same = λ m id. refl;
  expiry_same = λ m id. refl;
  txs_same = λ m id. refl;
  total_same = λ m id. refl;
  cfg_same = λ m id. refl;
}

holds-middle :
    (id : Text) (ks : List TxEntry) (e : TxEntry) (es : List TxEntry)
    → holds id (ks ++ e ∷ es) ≡ (text_eq e.tx.id id || holds id (ks ++ es))
holds-middle id [] e es = refl
holds-middle id (k ∷ ks) e es = ground (arith, holds-middle id ks e es)

Distinct-middle :
    (ks : List TxEntry) (e : TxEntry) (es : List TxEntry)
    → Distinct (ks ++ e ∷ es)
    → Distinct (ks ++ es) × (holds e.tx.id (ks ++ es) ≡ false)
Distinct-middle [] e es d = (d.1, d.0)
Distinct-middle (k ∷ ks) e es d =
    let (rest, away) = Distinct-middle ks e es d.1 in
    (
      (ground (arith, holds-middle k.tx.id ks e es, d.0), rest),
      ground (
        arith,
        holds-middle k.tx.id ks e es,
        d.0,
        text_eq_iff k.tx.id e.tx.id,
        text_eq_iff e.tx.id k.tx.id,
      ),
    )

Sized-middle :
    (ks : List TxEntry) (e : TxEntry) (es : List TxEntry) → Sized (ks ++ e ∷ es) → Sized (ks ++ es)
Sized-middle [] e es s = s.1
Sized-middle (k ∷ ks) e es s = (s.0, Sized-middle ks e es s.1)

forget-Describes :
    (forget : Mempool → Text → Mempool) (m : Mempool) (ks : List TxEntry) (e : TxEntry)
    (es : List TxEntry)
    → Forgets forget
    → Describes m (ks ++ e ∷ es)
    → Describes (forget m e.tx.id) (ks ++ es)
forget-Describes forget m ks e es f d =
    let (rest, away) = Distinct-middle ks e es d.distinct in
    record {
      seen_ids = λ id. rw f.seen_same (
          ground (
            arith,
            has-delete e.tx.id id m.seen,
            d.seen_ids id,
            holds-middle id ks e es,
            text_eq_iff e.tx.id id,
          ));
      expiry_ids = λ id. rw f.expiry_same (
          ground (
            arith,
            has-delete e.tx.id id m.tx_expiry,
            d.expiry_ids id,
            holds-middle id ks e es,
            text_eq_iff e.tx.id id,
          ));
      distinct = rest;
      sized = Sized-middle ks e es d.sized;
    }

-- What a run from `m` leaves.
record Purged (end : List TxEntry) (m later : Mempool) : Type 0 where
  entries : later.txs ≡ end
  described : Describes later end
  total : later.total_bytes ≡ sum_sizes end
  cfg : later.cfg ≡ m.cfg

-- From the kept entries `ks` and those ahead, `es`.
purge_loop-Purged :
    (goes : TxEntry → Bool) (forget : Mempool → Text → Mempool)
    → Forgets forget
    → (es ks : List TxEntry) (m : Mempool) → m.txs ≡ ks
    → Describes m (ks ++ es)
    → m.total_bytes ≡ sum_sizes ks
    → Purged (ks ++ kept goes es) m (purge_loop goes forget m es)
unfolding purge_loop keep_or_forget
purge_loop-Purged goes forget f [] ks m p d t = record {
  entries = rw append-nil p;
  described = d;
  total = rw append-nil t;
  cfg = refl;
}
purge_loop-Purged goes forget f (e ∷ es) ks m p d t = elim (Bool-cases (goes e)) [
  | inl gone ↦
      let r =
        purge_loop-Purged goes forget f es ks (forget m e.tx.id) (f.txs_same m e.tx.id ∙ p)
          (forget-Describes forget m ks e es f d) (f.total_same m e.tx.id ∙ t) in
      rw gone (record {
        entries = r.entries;
        described = r.described;
        total = r.total;
        cfg = r.cfg ∙ f.cfg_same m e.tx.id;
      })
  | inr stays ↦
      let m' = record m { txs = m.txs ++ (e ∷ []); total_bytes = m.total_bytes + e.size } in
      let all : (ks ++ e ∷ []) ++ es ≡ ks ++ e ∷ es = append_assoc ks (e ∷ []) es in
      let r =
        purge_loop-Purged goes forget f es (ks ++ e ∷ []) m' (ap (λ xs. xs ++ e ∷ []) p)
          (rw all (Describes-fields m m' (ks ++ e ∷ es) refl refl d))
          (omega (arith, t, sum_sizes-append ks (e ∷ []))) in
      let end = append_assoc ks (e ∷ []) (kept goes es) in
      rw (stays, ← end)
        (record { entries = r.entries; described = r.described; total = r.total; cfg = r.cfg })
]

length-kept-le : (goes : TxEntry → Bool) (es : List TxEntry) → length (kept goes es) ≤ length es
length-kept-le goes [] = omega arith
length-kept-le goes (e ∷ es) = ground (arith, length-kept-le goes es)

sum_sizes-kept-le :
    (goes : TxEntry → Bool) (es : List TxEntry) → sum_sizes (kept goes es) ≤ sum_sizes es
sum_sizes-kept-le goes [] = omega arith
sum_sizes-kept-le goes (e ∷ es) = ground (arith, sum_sizes-kept-le goes es)

purge_lem :
    (goes : TxEntry → Bool) (forget : Mempool → Text → Mempool) (m : Mempool)
    → Forgets forget
    → IsValid m
    → IsValid (purge goes forget m) × ((purge goes forget m).txs ≡ kept goes m.txs)
unfolding purge
purge_lem goes forget m f v =
    let r =
      purge_loop-Purged goes forget f m.txs [] (record m { txs = []; total_bytes = 0 }) refl
        (Describes-fields m _ m.txs refl refl v.described) refl in
    (
      record {
        described = rw r.entries r.described;
        total = r.total ∙ ap sum_sizes (sym r.entries);
        few = rw (r.entries, r.cfg) (omega (arith, length-kept-le goes m.txs, v.few));
        small = rw r.cfg (omega (arith, r.total, sum_sizes-kept-le goes m.txs, v.small, v.total));
      },
      r.entries,
    )

kept-empty :
    (m : List TxEntry) (ids : Map Text (Unit {0}))
    → (length ids == 0 || length m == 0) ≡ true
    → m ≡ kept (λ e. Map.has e.tx.id ids) m
unfolding Map.has Map.lookup
kept-empty [] ids h = refl
kept-empty (e ∷ es) [] h = ap (◌∷◌ e) (kept-empty es [] refl)
kept-empty (e ∷ es) (i ∷ ids) h = absurd (ground arith)

-- `RemoveByID` keeps a valid mempool valid, and removes exactly the entries whose id is in the set.
pub remove_by_id-kept :
    (m : Mempool) (ids : Map Text (Unit {0}))
    → IsValid m
    → IsValid (remove_by_id m ids)
      × ((remove_by_id m ids).txs ≡ kept (λ e. Map.has e.tx.id ids) m.txs)
unfolding remove_by_id
remove_by_id-kept m ids v = elim (Bool-cases (length ids == 0 || length m.txs == 0)) [
  | inl nothing ↦ rw nothing (v, kept-empty m.txs ids nothing)
  | inr some_work ↦
      rw some_work (purge_lem (λ e. Map.has e.tx.id ids) forget_removed m forget_removed-Forgets v)
]

-- `CleanExpired` keeps a valid mempool valid, and removes exactly the entries whose time is past.
pub clean_expired-kept :
    (m : Mempool) (now : ℕ)
    → IsValid m
    → IsValid (clean_expired m now)
      × ((clean_expired m now).txs ≡ kept (λ e. ltb e.expires_at now) m.txs)
unfolding clean_expired
clean_expired-kept m now v =
    purge_lem (λ e. ltb e.expires_at now) forget_expired m forget_expired-Forgets v
