-- ===== src/Chain/Report.antt =====
-- What the result of `addBlockUnlocked` says of the chain before and after it.
use go_sim_chain.Prelude.{
  ◌+◌, ◌<◌, ◌≡◌, ◌≢◌, refl, sym, ◌∙◌, ap, subst, ◌⊎◌, inl, inr, List, [], ◌∷◌, Option, some, none,
  true, false, nat_eq, arith, Bool-cases, Option-cases, ◌==◌, ltb, length, reverse,
}
use go_sim_chain.Map
use go_sim_chain.Types.{Hash, Block}
use go_sim_chain.Crypto.{Digests, work_for_difficulty}
use go_sim_chain.Chain.State.{
  Blockchain, Reorg, AddResult, Error, Result, ok, err, nil_deref, diverged,
}
use go_sim_chain.Chain.Add.{
  validate_block, switching, switch_tip, choose_tip, attach, store_block, add_child, add_hashed,
  add_block_unlocked, block_hash, validate_work,
}
use go_sim_chain.Chain.Walk.{compute_reorg}
use go_sim_chain.Chain.Valid.{IsValid}
use go_sim_chain.Chain.Grown.{
  grown, validate_block-IsAccepted, grown_child, grown_tip-Advances, grown-Extends,
}
use go_sim_chain.Chain.Advance.{add_hashed_cases}
use go_sim_chain.Chain.Ancestry.{Descent, IsAncestor}
use go_sim_chain.Chain.Switch.{IsReorg, compute_reorg-IsReorg}

-- A reorg that is reported removes blocks; where none is, the old tip stays on the main chain.
abbrev pub Switched : Blockchain → Hash → Hash → Option Reorg → Type 0
Switched bc old new none = IsAncestor bc old new
Switched bc old new (some r) = IsReorg bc old new r × (0 < length r.removed)

pub record IsReport (before after : Blockchain) (r : AddResult) : Type 0 where
  pub old_tip : r.old_tip ≡ before.tip
  pub new_tip : r.new_tip ≡ after.tip
  pub tip :
      ((r.is_new_tip ≡ false) × (after.tip ≡ before.tip) × (r.reorg ≡ none))
      ⊎ ((r.is_new_tip ≡ true)
          × (r.added ≡ true)
          × (after.tip ≢ before.tip)
          × Switched after before.tip after.tip r.reorg)

-- The errors that the source returns, as against the faults of the model.
abbrev pub IsRefusal : Error → Type 0
IsRefusal nil_deref = ⊥
IsRefusal diverged = ⊥
IsRefusal _ = Unit

-- An error leaves the chain as it was.
abbrev pub Reports : Blockchain → Blockchain × Result AddResult → Type 0
Reports before (after, ok r) = IsReport before after r
Reports before (after, err e) = (after ≡ before) × IsRefusal e

switching-Switched :
    (bc : Blockchain) (old new : Hash) (r : Reorg)
    → IsReorg bc old new r
    → Switched bc old new (switching (some r))
unfolding switching
switching-Switched bc old new r v = elim (Bool-cases (length r.removed == 0)) [
  | inr some_removed ↦ rw some_removed (v, ground arith)
  | inl none_removed ↦ rw none_removed (plain r.removed refl none_removed)
]
  where
    plain :
        (bs : List Block) → bs ≡ r.removed → (length r.removed == 0) ≡ true → IsAncestor bc old new
    plain [] e z =
        let d : old ≡ r.common_ancestor =
          subst (λ bs. Descent bc old (reverse bs) r.common_ancestor) (sym e) v.removed_branch in
        (reverse r.added, subst (Descent bc new (reverse r.added)) (sym d) v.added_branch)
    plain (b ∷ bs) e z = absurd (ground arith)

switch_tip-Reports :
    (before bc : Blockchain) (r : Reorg)
    → compute_reorg bc before.tip bc.tip ≡ ok (some r)
    → IsReorg bc before.tip bc.tip r
    → bc.tip ≢ before.tip
    → Reports before (switch_tip bc before.tip bc.tip)
unfolding switch_tip
switch_tip-Reports before bc r e v differ =
    rw (e, switch_tip)
      (record {
        old_tip = refl;
        new_tip = refl;
        tip = inr (refl, refl, differ, switching-Switched bc before.tip bc.tip r v);
      })

validate_work-IsRefusal :
    (D : Digests) (bc : Blockchain) (b : Block) (h : Hash) {e : Error}
    → validate_work D bc b h ≡ some e
    → IsRefusal e
unfolding validate_work
validate_work-IsRefusal D bc b h p = ground arith

validate_block-IsRefusal :
    (D : Digests) (bc : Blockchain) (b parent : Block) (h : Hash) {e : Error}
    → validate_block D bc b parent h ≡ some e
    → IsRefusal e
unfolding validate_block
validate_block-IsRefusal D bc b parent h p = ground arith

module _ (D : Digests) (bc : Blockchain) (v : IsValid D bc) (h : Hash) (b : Block) where
  attach-Reports :
      (parent : Block)
      → Map.lookup h bc.blocks ≡ none
      → Map.lookup b.header.prev_hash bc.blocks ≡ some parent
      → validate_block D bc b parent h ≡ none
      → 0 < b.header.height
      → Reports bc (attach bc h b)
  unfolding attach choose_tip store_block
  attach-Reports parent new found accepted high =
      let up = v.stored _ _ found in
      let work = up.work + work_for_difficulty b.header.difficulty in
      let s =
        grown_child D bc h b work parent up.work up new (v.absent h new) found up.weighed refl high
          (validate_block-IsAccepted D bc b parent h accepted) in
      let x = grown-Extends D bc h b work new (v.absent h new) in
      let best = x.work_kept _ _ v.tip_weighed in
      elim (Bool-cases (ltb v.tip_work work)) [
        | inr light ↦
            rw (up.weighed, best, light, attach, choose_tip)
              (record { old_tip = refl; new_tip = refl; tip = inl (refl, refl, refl) })
        | inl heavy ↦
            let y = grown_tip-Advances D bc h b work v new s (ground arith) in
            let differ : h ≢ bc.tip = λ e.
              let q : none ≡ some v.tip_block =
                sym new ∙ ap (λ k. Map.lookup k bc.blocks) e ∙ v.tip_found in
              cc in
            let (r, e, w) =
              compute_reorg-IsReorg D (record (grown bc h b work) { tip = h }) y.valid bc.tip h
                v.tip_block (record b { hash = h }) (y.extends.blocks_kept _ _ v.tip_found)
                (Map.lookup-insert_self h _ bc.blocks) (λ e. differ (sym e)) in
            rw (up.weighed, best, heavy, attach, choose_tip)
              (switch_tip-Reports bc (record (grown bc h b work) { tip = h }) r e w differ)
      ]

  add_child-Reports :
      Map.lookup h bc.blocks ≡ none → 0 < b.header.height → Reports bc (add_child D bc h b)
  unfolding add_child
  add_child-Reports new high = elim (Option-cases (Map.lookup b.header.prev_hash bc.blocks)) [
    | inl missing ↦
        rw (missing, add_child)
          (record { old_tip = refl; new_tip = refl; tip = inl (refl, refl, refl) })
    | inr (parent, found) ↦ elim (Option-cases (validate_block D bc b parent h)) [
      | inl accepted ↦
          rw (found, accepted, add_child) (attach-Reports parent new found accepted high)
      | inr (e, refused) ↦
          rw (found, refused, add_child) (refl, validate_block-IsRefusal D bc b parent h refused)
    ]
  ]

  add_hashed-Reports : Reports bc (add_hashed D bc h b)
  add_hashed-Reports =
      add_hashed_cases (Reports bc) D bc h b (refl, tt)
        (record { old_tip = refl; new_tip = refl; tip = inl (refl, refl, refl) }) add_child-Reports

-- On a valid chain the result of `addBlockUnlocked` names the tips before and after it and tells whether
-- the tip moved; where it moved, the reorg is that between the two, or none where the old tip is an
-- ancestor of the new one. An error is one of the source's and changes nothing.
pub add_block_unlocked-Reports :
    (D : Digests) (bc : Blockchain) (b : Option Block)
    → IsValid D bc
    → Reports bc (add_block_unlocked D bc b)
unfolding add_block_unlocked
add_block_unlocked-Reports D bc none v = (refl, tt)
add_block_unlocked-Reports D bc (some b) v = elim (Option-cases (block_hash D b)) [
  | inl failed ↦ rw (failed, add_block_unlocked) (refl, tt)
  | inr (h, e) ↦ rw (e, add_block_unlocked) (add_hashed-Reports D bc v h b)
]
