-- ===== src/Node/Cleared.antt =====
-- The mempool after a block: its transactions do not wait any longer.
use go_sim_chain.Prelude.{
  ℕ, ◌≡◌, inl, inr, refl, sym, subst, List, [], ◌∷◌, Option, none, some, Bool, true, false, arith,
  ◌==◌, if◌then◌else◌, if_cases, length, Text, text_eq, text_eq_iff, text_instance, Bool-cases,
  nat_eq,
}
use go_sim_chain.Map
use go_sim_chain.Map.{Map}
use go_sim_chain.Types.{Transaction, Block}
use go_sim_chain.Chain.State.{Reorg, AddResult}
use go_sim_chain.Mempool.{Mempool, TxEntry, return_txs, remove_by_id}
use go_sim_chain.Mempool.Valid.{IsValid, holds}
use go_sim_chain.Mempool.Calls.{return_txs-IsValid}
use go_sim_chain.Mempool.Purge.{kept, remove_by_id-kept}
use go_sim_chain.Node.State.{Node}
use go_sim_chain.Node.Blocks.{
  at_time, return_blocks, ids_of_txs, ids_of_blocks, apply_reorg, remove_txs_from_block,
  settle_mempool,
}

abbrev pub Ids : Type 0
Ids = Map Text (Unit {0})

other_id :
    (id : Text) (ids : Ids) (e : TxEntry)
    → Map.has e.tx.id ids ≡ false
    → Map.has id ids ≡ true
    → text_eq e.tx.id id ≡ false
other_id id ids e stays there = elim (Bool-cases (text_eq e.tx.id id)) [
  | inl same ↦ absurd (
      ground (
        arith,
        stays,
        subst (λ k. Map.has k ids ≡ true) (sym ((text_eq_iff e.tx.id id).0 same)) there,
      ))
  | inr other ↦ other
]

holds-kept :
    (id : Text) (ids : Ids) (es : List TxEntry)
    → Map.has id ids ≡ true
    → holds id (kept (λ e. Map.has e.tx.id ids) es) ≡ false
holds-kept id ids [] there = refl
holds-kept id ids (e ∷ es) there = elim (Bool-cases (Map.has e.tx.id ids)) [
  | inl goes ↦ rw (goes, kept) (holds-kept id ids es there)
  | inr stays ↦
      rw (stays, kept) (ground (arith, other_id id ids e stays there, holds-kept id ids es there))
]

module _ (id : Text) where
  ids_of_txs-has :
      (txs : List Transaction) (ids : Ids)
      → Map.has id ids ≡ true
      → Map.has id (ids_of_txs txs ids) ≡ true
  unfolding ids_of_txs
  ids_of_txs-has [] ids there = there
  ids_of_txs-has (tx ∷ txs) ids there =
      ids_of_txs-has txs (Map.insert tx.id tt ids)
        (ground (arith, Map.has-insert tx.id id tt ids, there))

  ids_of_blocks-has :
      (bs : List Block) (ids : Ids)
      → Map.has id ids ≡ true
      → Map.has id (ids_of_blocks bs ids) ≡ true
  unfolding ids_of_blocks
  ids_of_blocks-has [] ids there = there
  ids_of_blocks-has (b ∷ bs) ids there =
      ids_of_blocks-has bs (ids_of_txs b.txs ids) (ids_of_txs-has b.txs ids there)

-- The set of ids covers the transactions.
abbrev Covers : Ids → List Transaction → Type 0
Covers ids [] = Unit {0}
Covers ids (tx ∷ txs) = (Map.has tx.id ids ≡ true) × Covers ids txs

ids_of_txs-Covers : (txs : List Transaction) (ids : Ids) → Covers (ids_of_txs txs ids) txs
unfolding ids_of_txs
ids_of_txs-Covers [] ids = tt
ids_of_txs-Covers (tx ∷ txs) ids = (
  ids_of_txs-has tx.id txs (Map.insert tx.id tt ids)
      (ground (arith, Map.has-insert tx.id tx.id tt ids, text_eq_iff tx.id tx.id)),
  ids_of_txs-Covers txs (Map.insert tx.id tt ids),
)

ids_of_blocks-Covers_later :
    (bs : List Block) (txs : List Transaction) (ids : Ids)
    → Covers ids txs
    → Covers (ids_of_blocks bs ids) txs
ids_of_blocks-Covers_later bs [] ids v = tt
ids_of_blocks-Covers_later bs (tx ∷ txs) ids (there, v) =
    (ids_of_blocks-has tx.id bs ids there, ids_of_blocks-Covers_later bs txs ids v)

-- No transaction of the list waits in the mempool.
abbrev pub Cleared : Mempool → List Transaction → Type 0
Cleared m [] = Unit {0}
Cleared m (tx ∷ txs) = (holds tx.id m.txs ≡ false) × Cleared m txs

abbrev pub ClearedOf : Mempool → List Block → Type 0
ClearedOf m [] = Unit {0}
ClearedOf m (b ∷ bs) = Cleared m b.txs × ClearedOf m bs

module _ (m : Mempool) (v : IsValid m) where
  remove_by_id-Cleared :
      (ids : Ids) (txs : List Transaction) → Covers ids txs → Cleared (remove_by_id m ids) txs
  remove_by_id-Cleared ids [] c = tt
  remove_by_id-Cleared ids (tx ∷ txs) (there, c) = (
    subst (λ es. holds tx.id es ≡ false) (sym (remove_by_id-kept m ids v).1)
        (holds-kept tx.id ids m.txs there),
    remove_by_id-Cleared ids txs c,
  )

  remove_by_id-ClearedOf :
      (bs : List Block) (ids : Ids) → ClearedOf (remove_by_id m (ids_of_blocks bs ids)) bs
  unfolding ids_of_blocks
  remove_by_id-ClearedOf [] ids = tt
  remove_by_id-ClearedOf (b ∷ bs) ids = (
    remove_by_id-Cleared (ids_of_blocks bs (ids_of_txs b.txs ids)) b.txs
        (ids_of_blocks-Covers_later bs b.txs (ids_of_txs b.txs ids) (ids_of_txs-Covers b.txs ids)),
    remove_by_id-ClearedOf bs (ids_of_txs b.txs ids),
  )

pub return_blocks-IsValid :
    (bs : List Block) (m : Mempool) (now : ℕ) → IsValid m → IsValid (return_blocks m bs now)
unfolding return_blocks
return_blocks-IsValid [] m now v = v
return_blocks-IsValid (b ∷ bs) m now v =
    return_blocks-IsValid bs (return_txs m (at_time now b.txs)) now
      (return_txs-IsValid m (at_time now b.txs) v)

-- What a block leaves of the mempool.
abbrev pub SettledAs : Option Reorg → Bool → Block → Mempool → Type 0
SettledAs none is_new_tip b m = IsValid m × (is_new_tip ≡ true → Cleared m b.txs)
SettledAs (some r) is_new_tip b m = IsValid m × ClearedOf m r.added

pub apply_reorg-ClearedOf :
    (n : Node) (r : Reorg) (now : ℕ)
    → IsValid n.mempool
    → IsValid (apply_reorg n r now).mempool × ClearedOf (apply_reorg n r now).mempool r.added
unfolding apply_reorg
apply_reorg-ClearedOf n r now v =
    let w = return_blocks-IsValid r.removed n.mempool now v in
    (
      (remove_by_id-kept (return_blocks n.mempool r.removed now) (ids_of_blocks r.added []) w).0,
      remove_by_id-ClearedOf (return_blocks n.mempool r.removed now) w r.added [],
    )

pub remove_txs_from_block-Cleared :
    (n : Node) (b : Block)
    → IsValid n.mempool
    → IsValid (remove_txs_from_block n b).mempool
      × Cleared (remove_txs_from_block n b).mempool b.txs
unfolding remove_txs_from_block
remove_txs_from_block-Cleared n b v =
    if_cases (λ (k : Node). IsValid k.mempool × Cleared k.mempool b.txs) (length b.txs == 0)
      (λ nothing. (v, empty_Cleared n.mempool b.txs nothing))
      (λ _. (
        (remove_by_id-kept n.mempool (ids_of_txs b.txs []) v).0,
        remove_by_id-Cleared n.mempool v (ids_of_txs b.txs []) b.txs (ids_of_txs-Covers b.txs []),
      ))
  where
    empty_Cleared :
        (m : Mempool) (txs : List Transaction) → (length txs == 0) ≡ true → Cleared m txs
    empty_Cleared m [] e = tt
    empty_Cleared m (tx ∷ txs) e = absurd (ground arith)

settled_as :
    (n : Node) (o : Option Reorg) (is_new_tip : Bool) (b : Block) (now : ℕ)
    → IsValid n.mempool
    → SettledAs o is_new_tip b
        (elim o as (λ _. Node) [
          | some r ↦ apply_reorg n r now
          | none ↦ if is_new_tip then remove_txs_from_block n b else n
        ]).mempool
settled_as n none true b now v = let (w, c) = remove_txs_from_block-Cleared n b v in (w, λ _. c)
settled_as n none false b now v = (v, λ e. absurd cc)
settled_as n (some r) is_new_tip b now v = apply_reorg-ClearedOf n r now v

-- Where the mempool was valid, it is valid after a block was added; no transaction of a block that a
-- reorg added waits in it; and where the tip moved without a reorg, no transaction of the new block does.
pub settle_mempool-SettledAs :
    (n : Node) (res : AddResult) (b : Block) (now : ℕ)
    → IsValid n.mempool
    → SettledAs res.reorg res.is_new_tip b (settle_mempool n res b now).mempool
unfolding settle_mempool
settle_mempool-SettledAs n res b now v = settled_as n res.reorg res.is_new_tip b now v
