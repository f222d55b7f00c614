-- ===== src/Chain/Orphans.antt =====
-- What the rounds of `tryConnectOrphansUnlocked` do to the orphans.
use go_sim_chain.Prelude.{
  ℕ, ◌≤◌, ◌<◌, ◌≡◌, refl, subst, inl, inr, List, [], ◌∷◌, some, Bool, true, false, ◌||◌, nat_eq,
  arith, Bool-cases, Option-cases, length,
}
use go_sim_chain.Map
use go_sim_chain.Map.{Map}
use go_sim_chain.Types.{Hash, Block}
use go_sim_chain.Crypto.{Digests}
use go_sim_chain.Chain.State.{Blockchain, succeeded}
use go_sim_chain.Chain.Add.{
  validate_block, switch_tip, choose_tip, attach, store_block, add_child, add_block_unlocked,
  block_hash, visit, sweep,
}
use go_sim_chain.Chain.Walk.{compute_reorg}
use go_sim_chain.Chain.Advance.{add_hashed_cases}

abbrev pub ready : Blockchain → Block → Bool
ready bc ob = Map.has ob.header.prev_hash bc.blocks

switch_tip_orphans : (bc : Blockchain) (old h : Hash) → (switch_tip bc old h).0.orphans ≡ bc.orphans
unfolding switch_tip
switch_tip_orphans bc old h = ground (arith, compute_reorg bc old h)

choose_tip_orphans :
    (bc : Blockchain) (h : Hash) (work : ℕ) → (choose_tip bc h work).0.orphans ≡ bc.orphans
unfolding choose_tip
choose_tip_orphans bc h work = ground (arith, switch_tip_orphans (record bc { tip = h }) bc.tip h)

attach_orphans : (bc : Blockchain) (h : Hash) (b : Block) → (attach bc h b).0.orphans ≡ bc.orphans
unfolding attach store_block
attach_orphans bc h b = elim (Option-cases (Map.lookup b.header.prev_hash bc.cum_work)) [
  | inl missing ↦ rw (missing, attach)
  | inr (before, e) ↦ rw (e, attach) (choose_tip_orphans _ h _)
]

module _ (D : Digests) where
  add_child_orphans :
      (bc : Blockchain) (h : Hash) (b : Block)
      → ready bc b ≡ true
      → (add_child D bc h b).0.orphans ≡ bc.orphans
  unfolding add_child Map.has
  add_child_orphans bc h b r = elim (Option-cases (Map.lookup b.header.prev_hash bc.blocks)) [
    | inl missing ↦ absurd (ground arith)
    | inr (parent, found) ↦ elim (Option-cases (validate_block D bc b parent h)) [
      | inl accepted ↦ rw (found, accepted, add_child) (attach_orphans bc h b)
      | inr (e, refused) ↦ rw (found, refused, add_child)
    ]
  ]

  add_block_unlocked_orphans :
      (bc : Blockchain) (b : Block)
      → ready bc b ≡ true
      → (add_block_unlocked D bc (some b)).0.orphans ≡ bc.orphans
  unfolding add_block_unlocked
  add_block_unlocked_orphans bc b r = elim (Option-cases (block_hash D b)) [
    | inl failed ↦ rw (failed, add_block_unlocked)
    | inr (h, e) ↦
        rw (e, add_block_unlocked)
          (add_hashed_cases (λ s. s.0.orphans ≡ bc.orphans) D bc h b refl refl
            (λ _ _. add_child_orphans bc h b r))
  ]

  module _ (order : Map Hash Block → List Hash) where
    -- The three cases of a visit.
    pub visit_cases {ℓ} :
        (P : Blockchain × Bool → Type ℓ) (bc : Blockchain) (p : Bool) (oh : Hash)
        → (((ob : Block) → Map.lookup oh bc.orphans ≡ some ob → ready bc ob ≡ false) → P (bc, p))
        → ((ob : Block)
            → Map.lookup oh bc.orphans ≡ some ob
            → ready bc ob ≡ true
            → let s =
                add_block_unlocked D (record bc { orphans = Map.delete oh bc.orphans }) (some ob) in
              P (s.0, p || succeeded s.1))
        → P (visit D order (bc, p) oh)
    unfolding visit
    visit_cases P bc p oh stay go = elim (Option-cases (Map.lookup oh bc.orphans)) [
      | inl gone ↦ rw (gone, visit) (stay (λ ob e. absurd (ground arith)))
      | inr (ob, e) ↦ elim (Bool-cases (Map.has ob.header.prev_hash bc.blocks)) [
        | inr waits ↦
            rw (e, visit, waits)
              (stay (λ ob' e'. let q : ob ≡ ob' = cc in subst (λ b. ready bc b ≡ false) q waits))
        | inl up ↦ rw (e, visit, up) (go ob e up)
      ]
    ]

    -- A visit deletes at most the orphan that it visits, and does so where it progresses.
    pub visit_shrinks :
        (bc : Blockchain) (p : Bool) (oh : Hash)
        → let s = visit D order (bc, p) oh in
          (length s.0.orphans ≤ length bc.orphans)
          × (p ≡ false → s.1 ≡ true → length s.0.orphans < length bc.orphans)
          × (p ≡ true → s.1 ≡ true)
    visit_shrinks bc p oh =
        visit_cases
          (λ s.
            (length s.0.orphans ≤ length bc.orphans)
            × (p ≡ false → s.1 ≡ true → length s.0.orphans < length bc.orphans)
            × (p ≡ true → s.1 ≡ true))
          bc p oh (λ _. (omega arith, λ q r. cc, λ q. q))
          λ ob e up.
            let same =
              add_block_unlocked_orphans (record bc { orphans = Map.delete oh bc.orphans }) ob up in
            let less = Map.length-delete-lt oh ob bc.orphans e in
            (rw same (omega arith), λ q r. rw same less, λ q. rw q)

    pub sweep_shrinks :
        (ohs : List Hash) (s : Blockchain × Bool)
        → (length (sweep D order s ohs).0.orphans ≤ length s.0.orphans)
          × (s.1 ≡ false
              → (sweep D order s ohs).1 ≡ true
              → length (sweep D order s ohs).0.orphans < length s.0.orphans)
          × (s.1 ≡ true → (sweep D order s ohs).1 ≡ true)
    unfolding sweep
    sweep_shrinks [] s = (omega arith, λ q r. cc, λ q. q)
    sweep_shrinks (oh ∷ ohs) (bc, p) =
        let (le, lt, keeps) = visit_shrinks bc p oh in
        let (le', lt', keeps') = sweep_shrinks ohs (visit D order (bc, p) oh) in
        (
          omega arith,
          λ q r. elim (Bool-cases (visit D order (bc, p) oh).1) [
            | inl up ↦ omega (arith, lt q up)
            | inr down ↦ omega (arith, lt' down r)
          ],
          λ q. keeps' (keeps q),
        )
