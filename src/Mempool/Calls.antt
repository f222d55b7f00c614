-- ===== src/Mempool/Calls.antt =====
-- `Add`, `Pop` and `Return`: what they do on every branch, and that they keep the mempool valid.
use go_sim_chain.Prelude.{
  ℕ, zero, suc, ◌+◌, ◌≤◌, ◌<◌, ◌≡◌, refl, sym, ◌∙◌, ap, ◌⊎◌, inl, inr, List, [], ◌∷◌, ◌++◌, true,
  false, arith, length, take, drop, text_eq_iff, text_instance, if◌then◌else◌, Bool-cases,
  length-append, length-take, length-drop, take-append-drop, min, ltb, leb, ◌==◌,
}
use go_sim_chain.Prelude.Int.{ℤ, pos, negsuc, pos_part}
use go_sim_chain.Types.{Transaction}
use go_sim_chain.Map
use go_sim_chain.Mempool.{
  Mempool, TxEntry, estimate_tx_size, admit, add, release, release_all, transactions, pop_up_to,
  pop, return_txs,
}
use go_sim_chain.Mempool.Valid.{
  holds, sum_sizes, Describes, IsValid, holds-append, sum_sizes-append, Sized-append, Distinct-snoc,
  has-insert, has-delete, Describes-fields,
}

-- The entry that `Add` makes.
abbrev pub entry_of : Mempool → ℕ → Transaction → TxEntry
entry_of m now tx = record {
  tx = tx;
  added_at = now;
  expires_at = now + m.cfg.ttl;
  size = estimate_tx_size tx;
}

-- The id is new and both limits allow the transaction.
pub record Fits (m : Mempool) (tx : Transaction) : Type 0 where
  pub fresh : holds tx.id m.txs ≡ false
  pub room : length m.txs < m.cfg.max_txs
  pub bytes : sum_sizes m.txs + estimate_tx_size tx ≤ m.cfg.max_bytes

-- On a valid mempool `Add` takes a transaction exactly when its id is new and both limits allow it, and
-- otherwise nothing changes.
pub add_lem :
    (m : Mempool) (now : ℕ) (tx : Transaction)
    → IsValid m
    → (Fits m tx × (add m now tx ≡ (admit m now tx, true)))
      ⊎ ((Fits m tx → ⊥) × (add m now tx ≡ (m, false)))
unfolding add
add_lem m now tx v = elim (Bool-cases (Map.has tx.id m.seen)) [
  | inl known ↦ inr (λ f. ground (arith, f.fresh, v.described.seen_ids tx.id), rw known)
  | inr fresh ↦ elim (Bool-cases (leb m.cfg.max_txs (length m.txs))) [
    | inl full ↦ inr (λ f. ground (arith, f.room), rw (fresh, full))
    | inr room ↦ elim (Bool-cases (ltb m.cfg.max_bytes (m.total_bytes + estimate_tx_size tx))) [
      | inl heavy ↦ inr (λ f. ground (arith, f.bytes, v.total), rw (fresh, room, heavy))
      | inr light ↦ inl (
        record {
          fresh = ground (arith, v.described.seen_ids tx.id);
          room = ground arith;
          bytes = ground (arith, v.total);
        },
        rw (fresh, room, light),
      )
    ]
  ]
]

admit-IsValid :
    (m : Mempool) (now : ℕ) (tx : Transaction) → IsValid m → Fits m tx → IsValid (admit m now tx)
unfolding admit
admit-IsValid m now tx v f =
    let e = entry_of m now tx in
    let d = v.described in
    record {
      described = record {
        seen_ids = λ id.
            ground
              (arith, has-insert tx.id id tt m.seen, d.seen_ids id, holds-append id m.txs (e ∷ []));
        expiry_ids = λ id. ground (
          arith,
          has-insert tx.id id (now + m.cfg.ttl) m.tx_expiry,
          d.expiry_ids id,
          holds-append id m.txs (e ∷ []),
        );
        distinct = Distinct-snoc m.txs e d.distinct f.fresh;
        sized = Sized-append m.txs (e ∷ []) d.sized (refl, tt);
      };
      total = omega (arith, v.total, sum_sizes-append m.txs (e ∷ []));
      few = omega (arith, f.room, length-append m.txs (e ∷ []));
      small = omega (arith, v.total, f.bytes);
    }

pub add-IsValid : (m : Mempool) (now : ℕ) (tx : Transaction) → IsValid m → IsValid (add m now tx).0
add-IsValid m now tx v = elim (add_lem m now tx v) [
  | inl (f, e) ↦ rw e (admit-IsValid m now tx v f)
  | inr (_, e) ↦ rw e v
]

pub return_txs-IsValid :
    (m : Mempool) (txs : List (ℕ × Transaction)) → IsValid m → IsValid (return_txs m txs)
unfolding return_txs
return_txs-IsValid m [] v = v
return_txs-IsValid m ((now, tx) ∷ txs) v =
    return_txs-IsValid (add m now tx).0 txs (add-IsValid m now tx v)

release-Describes :
    (m : Mempool) (e : TxEntry) (es : List TxEntry)
    → Describes m (e ∷ es)
    → Describes (release m e) es
unfolding release
release-Describes m e es d = record {
  seen_ids = λ id.
      ground
        (arith, has-delete e.tx.id id m.seen, d.seen_ids id, d.distinct, text_eq_iff e.tx.id id);
  expiry_ids = λ id. ground (
    arith,
    has-delete e.tx.id id m.tx_expiry,
    d.expiry_ids id,
    d.distinct,
    text_eq_iff e.tx.id id,
  );
  distinct = d.distinct.1;
  sized = d.sized.1;
}

release_all-Describes :
    (es fs : List TxEntry) (m : Mempool)
    → Describes m (es ++ fs)
    → m.total_bytes ≡ sum_sizes (es ++ fs)
    → Describes (release_all m es) fs
      × ((release_all m es).total_bytes ≡ sum_sizes fs)
      × ((release_all m es).cfg ≡ m.cfg)
unfolding release_all
release_all-Describes [] fs m d t = (d, t, refl)
release_all-Describes (e ∷ es) fs m d t =
    release_all-Describes es fs (release m e) (release-Describes m e (es ++ fs) d) (omega arith)

total_or_zero :
    (es : List TxEntry) (t : ℕ)
    → t ≡ sum_sizes es
    → (if length es == 0 then 0 else t) ≡ sum_sizes es
total_or_zero [] t e = refl
total_or_zero (e ∷ es) t p = ground arith

sum_sizes-drop-le : (n : ℕ) (es : List TxEntry) → sum_sizes (drop n es) ≤ sum_sizes es
sum_sizes-drop-le zero es = omega arith
sum_sizes-drop-le (suc n) [] = omega arith
sum_sizes-drop-le (suc n) (e ∷ es) = omega (arith, sum_sizes-drop-le n es)

pop_up_to-IsValid : (m : Mempool) (n : ℕ) → IsValid m → IsValid (pop_up_to m n).0
unfolding pop_up_to
pop_up_to-IsValid m n v =
    let es = take n m.txs in
    let fs = drop n m.txs in
    let all : es ++ fs ≡ m.txs = take-append-drop n m.txs in
    let (d, t, c) = release_all-Describes es fs m (rw all v.described) (rw all v.total) in
    let t' = total_or_zero fs (release_all m es).total_bytes t in
    record {
      described = Describes-fields (release_all m es) _ fs refl refl d;
      total = t';
      few = rw c (omega (arith, length-drop n m.txs, v.few));
      small = rw c (omega (arith, t', v.small, v.total, sum_sizes-drop-le n m.txs));
    }

pub pop-IsValid : (m : Mempool) (max : ℤ) → IsValid m → IsValid (pop m max).0
unfolding pop
pop-IsValid m (pos zero) v = v
pop-IsValid m (pos (suc n)) v = elim (Bool-cases (length m.txs == 0)) [
  | inl none_there ↦ rw none_there v
  | inr some_there ↦ rw some_there (pop_up_to-IsValid m (suc n) v)
]
pop-IsValid m (negsuc n) v = v

length-map : (es : List TxEntry) → length (transactions es) ≡ length es
length-map [] = refl
length-map (e ∷ es) = ap suc (length-map es)

transactions-append :
    (es fs : List TxEntry) → transactions (es ++ fs) ≡ transactions es ++ transactions fs
transactions-append [] fs = refl
transactions-append (e ∷ es) fs = ap (◌∷◌ e.tx) (transactions-append es fs)

-- `Pop` takes from the front, in order: what it returns and what stays are the queue as it was, and it
-- returns `max` transactions, or all where there are fewer, and none where `max` is not positive.
pub pop-append :
    (m : Mempool) (max : ℤ)
    → ((pop m max).1 ++ transactions (pop m max).0.txs ≡ transactions m.txs)
      × (length (pop m max).1 ≡ min (pos_part max) (length m.txs))
unfolding pop
pop-append m (pos zero) = (refl, omega arith)
pop-append m (pos (suc n)) = elim (Bool-cases (length m.txs == 0)) [
  | inl none_there ↦ rw none_there (refl, ground arith)
  | inr some_there ↦ rw some_there (
    sym (transactions-append (take (suc n) m.txs) (drop (suc n) m.txs))
        ∙ ap transactions (take-append-drop (suc n) m.txs),
    length-map (take (suc n) m.txs) ∙ length-take (suc n) m.txs,
  )
]
pop-append m (negsuc n) = (refl, omega arith)
