-- ===== src/Store/Change.antt =====
-- internal/store/store.go: `ApplyTipChange` and `rollbackTo`.
use go_sim_chain.Prelude.{
  ℕ, zero, suc, ◌+◌, ◌-◌, List, [], ◌∷◌, Option, none, some, leb, if◌then◌else◌, nat_eq,
}
use go_sim_chain.Map
use go_sim_chain.Types.{Hash, Block}
use go_sim_chain.Crypto.{Digests}
use go_sim_chain.Chain.State.{Blockchain, Reorg, block_by_hash}
use go_sim_chain.Store.Disk.{
  Format, Disk, Store, StoreError, ancestor_missing, write_file, save_manifest, missing, broken,
  found, read_block_file, write_block_file,
}

-- The loop of `rollbackTo`: it removes the files of the `n` heights above `height`, the highest first.
unfoldable pub remove_above : ℕ → ℕ → Disk → Disk
unfolding write_file
remove_above height zero d = d
remove_above height (suc n) d =
    remove_above height n
      (write_file d (λ d. record d { blocks = Map.delete (height + suc n) d.blocks })).0

abbrev pub at_tip : Store → ℕ → Hash → Store
at_tip s height hash = record s {
  manifest = record (s.manifest) { tip_height = height; tip_hash = hash };
}

module _ (F : Format) where
  unfoldable pub rollback_to : Store → ℕ → Store
  unfolding remove_above read_block_file
  rollback_to s height =
      let d = remove_above height (s.manifest.tip_height - height) s.disk in
      elim (read_block_file F d height) [
        | found b ↦ at_tip (record s { disk = d }) height b.hash
        | missing ↦ at_tip (record s { disk = d }) height s.manifest.tip_hash
        | broken ↦ at_tip (record s { disk = d }) height s.manifest.tip_hash
      ]

  module _ (D : Digests) where
    -- The loop over `reorg.Added`, and what follows it.
    unfoldable pub write_added : Store → List Block → ℕ → Store × Option StoreError
    unfolding write_block_file save_manifest
    write_added s [] now = save_manifest F s now
    write_added s (b ∷ bs) now =
        let (s', error) = write_block_file F D s b in
        let rest = write_added (at_tip s' b.header.height b.hash) bs now in
        elim error [ some e ↦ (s', some e) | none ↦ rest ]

    unfoldable pub append_tip : Store → Block → Hash → ℕ → Store × Option StoreError
    unfolding write_block_file save_manifest
    append_tip s b tip_hash now =
        let (s', error) = write_block_file F D s b in
        if leb b.header.height s.manifest.tip_height then (s, none) else elim error [
          | some e ↦ (s', some e)
          | none ↦ save_manifest F (at_tip s' b.header.height tip_hash) now
        ]

    unfoldable pub apply_tip_change :
        Blockchain → Store → Hash → Option Reorg → ℕ → Store × Option StoreError
    unfolding append_tip write_added rollback_to
    apply_tip_change bc s tip_hash none now = elim (block_by_hash bc tip_hash) [
      | none ↦ (s, none)
      | some b ↦ append_tip s b tip_hash now
    ]
    apply_tip_change bc s tip_hash (some r) now = elim (block_by_hash bc r.common_ancestor) [
      | none ↦ (s, some ancestor_missing)
      | some a ↦ write_added (rollback_to s a.header.height) r.added now
    ]
