-- ===== src/Chain/Advance.antt =====
-- Each call that adds blocks keeps the tree valid, forgets no block, and moves the tip only to more
-- work.
use go_sim_chain.Prelude.{
  ℕ, zero, suc, ◌+◌, ◌<◌, ◌≡◌, refl, ◌∙◌, inl, inr, List, [], ◌∷◌, Option, none, some, Bool, false,
  not, nat_eq, arith, Option-cases, Bool-cases, ltb, ◌==◌, ◌&&◌, if◌then◌else◌, length,
}
use go_sim_chain.Map
use go_sim_chain.Map.{Map}
use go_sim_chain.Types.{Hash, Block}
use go_sim_chain.Crypto.{Digests, work_for_difficulty}
use go_sim_chain.Chain.State.{
  Blockchain, Result, AddResult, ok, err, unexpected_genesis, Result-cases,
}
use go_sim_chain.Chain.Add.{
  unchanged, block_hash, validate_block, store_block, attach, choose_tip, switch_tip, add_child,
  add_hashed, add_block_unlocked, visit, sweep, try_connect_orphans, add_block,
}
use go_sim_chain.Chain.Walk.{compute_reorg}
use go_sim_chain.Chain.Valid.{IsValid, Extends, Advances}
use go_sim_chain.Chain.Grown.{
  IsStored-mono, validate_block-IsAccepted, grown, grown-Extends, grown_child, grown-Advances,
  grown_tip-Advances,
}

Extends-refl : (bc : Blockchain) → Extends bc bc
Extends-refl bc = record {
  same_genesis = refl;
  same_difficulty = refl;
  blocks_kept = λ _ _ e. e;
  parent_kept = λ _ _ e. e;
  height_kept = λ _ _ e. e;
  work_kept = λ _ _ e. e;
}

Extends-trans : (a b c : Blockchain) → Extends a b → Extends b c → Extends a c
Extends-trans a b c x y = record {
  same_genesis = y.same_genesis ∙ x.same_genesis;
  same_difficulty = y.same_difficulty ∙ x.same_difficulty;
  blocks_kept = λ h v e. y.blocks_kept h v (x.blocks_kept h v e);
  parent_kept = λ h v e. y.parent_kept h v (x.parent_kept h v e);
  height_kept = λ h v e. y.height_kept h v (x.height_kept h v e);
  work_kept = λ h v e. y.work_kept h v (x.work_kept h v e);
}

pub Advances-refl : (D : Digests) (bc : Blockchain) (v : IsValid D bc) → Advances D bc v.tip_work bc
Advances-refl D bc v = record { valid = v; extends = Extends-refl bc; moved = inl (refl, refl) }

pub Advances-trans :
    (D : Digests) (a b c : Blockchain) (best : ℕ) (x : Advances D a best b)
    → Advances D b x.valid.tip_work c
    → Advances D a best c
Advances-trans D a b c best x y = record {
  valid = y.valid;
  extends = Extends-trans a b c x.extends y.extends;
  moved = ground (arith, x.moved, y.moved);
}

module _ (D : Digests) (bc : Blockchain) (v : IsValid D bc) where
  -- The orphans have no part in it.
  pub orphans-Advances :
      (os : Map Hash Block) → Advances D bc v.tip_work (record bc { orphans = os })
  orphans-Advances os = record {
    valid = record {
      stored = λ h b e. IsStored-mono D bc _ h b same (v.stored h b e);
      absent = λ h e.
          let a = v.absent h e in
          record { no_parent = a.no_parent; no_height = a.no_height; no_work = a.no_work };
      genesis_at = v.genesis_at;
      tip_block = v.tip_block;
      tip_found = v.tip_found;
      tip_work = v.tip_work;
      tip_weighed = v.tip_weighed;
      heaviest = v.heaviest;
    };
    extends = same;
    moved = inl (refl, refl);
  }
    where
      same : Extends bc (record bc { orphans = os })
      same = record {
        same_genesis = refl;
        same_difficulty = refl;
        blocks_kept = λ _ _ e. e;
        parent_kept = λ _ _ e. e;
        height_kept = λ _ _ e. e;
        work_kept = λ _ _ e. e;
      }

switch_tip_state : (bc : Blockchain) (old_tip h : Hash) → (switch_tip bc old_tip h).0 ≡ bc
unfolding switch_tip
switch_tip_state bc old_tip h = ground (arith, compute_reorg bc old_tip h)

choose_tip_state :
    (bc : Blockchain) (h : Hash) (work best : ℕ)
    → Map.lookup bc.tip bc.cum_work ≡ some best
    → (choose_tip bc h work).0 ≡ (if ltb best work then record bc { tip = h } else bc)
unfolding choose_tip
choose_tip_state bc h work best e =
    ground (arith, switch_tip_state (record bc { tip = h }) bc.tip h)

attach_state :
    (bc : Blockchain) (h : Hash) (b : Block) (before best : ℕ) {work : ℕ}
    → Map.lookup b.header.prev_hash bc.cum_work ≡ some before
    → work ≡ before + work_for_difficulty b.header.difficulty
    → Map.lookup bc.tip (Map.insert h work bc.cum_work) ≡ some best
    → (attach bc h b).0
      ≡ (if ltb best work then record (grown bc h b work) { tip = h } else grown bc h b work)
unfolding attach store_block
attach_state bc h b before best {work} e s t =
    rw (e, attach, ← s) (choose_tip_state (grown bc h b work) h work best t)

-- What a block can meet before it is compared with its parent.
pub add_hashed_cases {ℓ} :
    (P : Blockchain × Result AddResult → Type ℓ) (D : Digests) (bc : Blockchain) (h : Hash)
    (b : Block)
    → P (bc, err unexpected_genesis)
    → P (bc, ok (unchanged bc))
    → (Map.lookup h bc.blocks ≡ none → 0 < b.header.height → P (add_child D bc h b))
    → P (add_hashed D bc h b)
unfolding add_hashed Map.has
add_hashed_cases P D bc h b refused known child =
    elim (Bool-cases (b.header.height == 0 && not (h == bc.genesis))) [
      | inl bad ↦ rw bad refused
      | inr fine ↦ elim (Option-cases (Map.lookup h bc.blocks)) [
        | inr (c, old) ↦ rw (fine, old, Map.has) known
        | inl new ↦ elim (Bool-cases (ltb 0 b.header.height)) [
          | inl high ↦ rw (fine, new, Map.has, high) (child new (ground arith))
          | inr low ↦ rw (fine, new, Map.has, low) known
        ]
      ]
    ]

module _ (D : Digests) (bc : Blockchain) (v : IsValid D bc) (h : Hash) (b : Block) where
  attach-Advances :
      (parent : Block)
      → Map.lookup h bc.blocks ≡ none
      → Map.lookup b.header.prev_hash bc.blocks ≡ some parent
      → validate_block D bc b parent h ≡ none
      → 0 < b.header.height
      → Advances D bc v.tip_work (attach bc h b).0
  unfolding store_block
  attach-Advances parent new found accepted high =
      let up = v.stored _ _ found in
      let work = up.work + work_for_difficulty b.header.difficulty in
      let s =
        grown_child D bc h b work parent up.work up new (v.absent h new) found up.weighed refl high
          (validate_block-IsAccepted D bc b parent h accepted) in
      let x = grown-Extends D bc h b work new (v.absent h new) in
      let e =
        attach_state bc h b up.work v.tip_work up.weighed refl (x.work_kept _ _ v.tip_weighed) in
      elim (Bool-cases (ltb v.tip_work work)) [
        | inl heavy ↦ rw (e, heavy) (grown_tip-Advances D bc h b work v new s (ground arith))
        | inr light ↦ rw (e, light) (grown-Advances D bc h b work v new s (ground arith))
      ]

  add_child-Advances :
      Map.lookup h bc.blocks ≡ none
      → 0 < b.header.height
      → Advances D bc v.tip_work (add_child D bc h b).0
  unfolding add_child
  add_child-Advances new high = elim (Option-cases (Map.lookup b.header.prev_hash bc.blocks)) [
    | inl missing ↦ rw (missing, add_child) (orphans-Advances D bc v _)
    | inr (parent, found) ↦ elim (Option-cases (validate_block D bc b parent h)) [
      | inl accepted ↦
          rw (found, accepted, add_child) (attach-Advances parent new found accepted high)
      | inr (e, refused) ↦ rw (found, refused, add_child) (Advances-refl D bc v)
    ]
  ]

  add_hashed-Advances : Advances D bc v.tip_work (add_hashed D bc h b).0
  unfolding add_hashed
  add_hashed-Advances =
      add_hashed_cases (λ s. Advances D bc v.tip_work s.0) D bc h b (Advances-refl D bc v)
        (Advances-refl D bc v) add_child-Advances

module _ (D : Digests) where
  pub add_block_unlocked-Advances :
      (bc : Blockchain) (v : IsValid D bc) (b : Option Block)
      → Advances D bc v.tip_work (add_block_unlocked D bc b).0
  unfolding add_block_unlocked
  add_block_unlocked-Advances bc v none = Advances-refl D bc v
  add_block_unlocked-Advances bc v (some b) = elim (Option-cases (block_hash D b)) [
    | inl failed ↦ rw (failed, add_block_unlocked) (Advances-refl D bc v)
    | inr (h, e) ↦ rw (e, add_block_unlocked) (add_hashed-Advances D bc v h b)
  ]

  module _ (order : Map Hash Block → List Hash) where
    pub visit-Advances :
        (s : Blockchain × Bool) (v : IsValid D s.0) (oh : Hash)
        → Advances D s.0 v.tip_work (visit D order s oh).0
    unfolding visit
    visit-Advances (bc, p) v oh = elim (Option-cases (Map.lookup oh bc.orphans)) [
      | inl gone ↦ rw (gone, visit) (Advances-refl D bc v)
      | inr (ob, e) ↦ elim (Bool-cases (Map.has ob.header.prev_hash bc.blocks)) [
        | inr waits ↦ rw (e, visit, waits) (Advances-refl D bc v)
        | inl ready ↦
            let x = orphans-Advances D bc v (Map.delete oh bc.orphans) in
            rw (e, visit, ready)
              (Advances-trans D _ _ _ _ x (add_block_unlocked-Advances _ x.valid (some ob)))
      ]
    ]

    pub sweep-Advances :
        (ohs : List Hash) (s : Blockchain × Bool) (v : IsValid D s.0)
        → Advances D s.0 v.tip_work (sweep D order s ohs).0
    unfolding sweep
    sweep-Advances [] s v = Advances-refl D s.0 v
    sweep-Advances (oh ∷ ohs) s v =
        let x = visit-Advances s v oh in
        Advances-trans D _ _ _ _ x (sweep-Advances ohs (visit D order s oh) x.valid)

    pub try_connect_orphans-Advances :
        (fuel : ℕ) (bc : Blockchain) (v : IsValid D bc)
        → Advances D bc v.tip_work (try_connect_orphans D order fuel bc).0
    unfolding try_connect_orphans
    try_connect_orphans-Advances zero bc v = Advances-refl D bc v
    try_connect_orphans-Advances (suc fuel) bc v =
        let s = sweep D order (bc, false) (order bc.orphans) in
        let x = sweep-Advances (order bc.orphans) (bc, false) v in
        elim (Bool-cases s.1) [
          | inl more ↦
              rw more (Advances-trans D _ _ _ _ x (try_connect_orphans-Advances fuel s.0 x.valid))
          | inr done ↦ rw done x
        ]

    -- `AddBlock` keeps a valid tree valid, forgets no block, and moves the tip only to more work; the tip has
    -- the most work of all blocks.
    pub add_block-Advances :
        (bc : Blockchain) (v : IsValid D bc) (b : Option Block)
        → Advances D bc v.tip_work (add_block D order bc b).0
    unfolding add_block
    add_block-Advances bc v b =
        let x = add_block_unlocked-Advances bc v b in
        let bc' = (add_block_unlocked D bc b).0 in
        elim (Result-cases (add_block_unlocked D bc b).1) [
          | inr (e, failed) ↦ rw (failed, add_block) x
          | inl (res, done) ↦
              rw (done, add_block)
                (Advances-trans D _ _ _ _ x
                  (try_connect_orphans-Advances (suc (length bc'.orphans)) bc' x.valid))
        ]
