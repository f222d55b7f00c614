-- ===== src/Chain/Settle.antt =====
-- `tryConnectOrphansUnlocked` ends, and leaves no orphan whose parent is stored.
use mathlib.Core.List.{Memᴰ}
use go_sim_chain.Prelude.{
  ℕ, zero, suc, ◌<◌, ◌≡◌, refl, sym, ◌∙◌, subst, inl, inr, List, [], ◌∷◌, Option, some, Bool, true,
  false, ◌||◌, nat_eq, arith, Bool-cases, if◌then◌else◌, length,
}
use go_sim_chain.Map
use go_sim_chain.Map.{Map}
use go_sim_chain.Types.{Hash, Block}
use go_sim_chain.Crypto.{Digests}
use go_sim_chain.Chain.State.{Blockchain, AddResult, Result, ok, err, succeeded, diverged}
use go_sim_chain.Chain.Add.{add_block_unlocked, visit, sweep, try_connect_orphans, add_block}
use go_sim_chain.Chain.Valid.{IsValid}
use go_sim_chain.Chain.Advance.{
  orphans-Advances, add_block_unlocked-Advances, visit-Advances, sweep-Advances,
}
use go_sim_chain.Chain.Report.{IsReport, IsRefusal, Reports, add_block_unlocked-Reports}
use go_sim_chain.Chain.Orphans.{ready, visit_cases, sweep_shrinks}

-- No orphan waits for a block that is stored.
abbrev pub IsSettled : Blockchain → Type 0
IsSettled bc = (oh : Hash) (ob : Block) → Map.lookup oh bc.orphans ≡ some ob → ready bc ob ≡ false

-- `range` visits every key of a map.
abbrev pub Covers : (Map Hash Block → List Hash) → Type 0
Covers order =
    (m : Map Hash Block) (k : Hash) (b : Block) → Map.lookup k m ≡ some b → Memᴰ k (order m)

or-eq-false : (p q : Bool) → (p || q) ≡ false → q ≡ false
or-eq-false p q h = ground arith

module _ (D : Digests) where
  module _ (order : Map Hash Block → List Hash) where
    -- What a visit or a sweep that does not progress leaves: the blocks as they were, and of the
    -- orphans those that wait.
    abbrev Rests : Blockchain → Blockchain → Type 0
    Rests bc later =
        (later.blocks ≡ bc.blocks)
        × ((k : Hash) (b : Block)
            → Map.lookup k later.orphans ≡ some b
            → Map.lookup k bc.orphans ≡ some b)

    abbrev Waits : Blockchain → Hash → Type 0
    Waits bc k = (b : Block) → Map.lookup k bc.orphans ≡ some b → ready bc b ≡ false

    refused_state :
        (bc : Blockchain) (b : Block)
        → IsValid D bc
        → succeeded (add_block_unlocked D bc (some b)).1 ≡ false
        → (add_block_unlocked D bc (some b)).0 ≡ bc
    refused_state bc b v e =
        go (add_block_unlocked D bc (some b)) (add_block_unlocked-Reports D bc (some b) v) e
      where
        go : (s : Blockchain × Result AddResult) → Reports bc s → succeeded s.1 ≡ false → s.0 ≡ bc
        go (after, ok r) h e = cc
        go (after, err x) h e = h.0

    visit-Rests :
        (s : Blockchain × Bool) (oh : Hash)
        → IsValid D s.0
        → (visit D order s oh).1 ≡ false
        → Rests s.0 (visit D order s oh).0 × Waits (visit D order s oh).0 oh
    visit-Rests (bc, p) oh v =
        visit_cases D order (λ s. s.1 ≡ false → Rests bc s.0 × Waits s.0 oh) bc p oh
          (λ w _. ((refl, λ k b e. e), w))
          λ ob e up q.
            let bc' = record bc { orphans = Map.delete oh bc.orphans } in
            let same = refused_state bc' ob (orphans-Advances D bc v _).valid (or-eq-false p _ q) in
            rw same (
              (refl, λ k b. Map.lookup-delete-some oh k b bc.orphans),
              λ b f. let gone = Map.lookup-delete_self oh bc.orphans in absurd (ground arith),
            )

    Rests-Waits : (bc later : Blockchain) (k : Hash) → Rests bc later → Waits bc k → Waits later k
    Rests-Waits bc later k (e, old) w b f = rw e (w b (old k b f))

    sweep-Rests :
        (ohs : List Hash) (s : Blockchain × Bool)
        → IsValid D s.0
        → (sweep D order s ohs).1 ≡ false
        → Rests s.0 (sweep D order s ohs).0
          × ((k : Hash) → Memᴰ k ohs → Waits (sweep D order s ohs).0 k)
    unfolding sweep
    sweep-Rests [] s v q = ((refl, λ k b e. e), λ k m. elim m [ ])
    sweep-Rests (oh ∷ ohs) s v q =
        let t = visit D order s oh in
        let down : t.1 ≡ false = elim (Bool-cases t.1) [
          | inr d ↦ d
          | inl u ↦ let f = (sweep_shrinks D order ohs t).2 u in cc
        ] in
        let ((e, old), w) = visit-Rests s oh v down in
        let ((e', old'), ws) = sweep-Rests ohs t (visit-Advances D order s v oh).valid q in
        (
          (e' ∙ e, λ k b f. old k b (old' k b f)),
          λ k m.
              found k (sweep D order t ohs).0 m
                (Rests-Waits t.0 (sweep D order t ohs).0 oh (e', old') w) (ws k),
        )
      where
        found :
            (k : Hash) (later : Blockchain)
            → Memᴰ k (oh ∷ ohs)
            → Waits later oh
            → (Memᴰ k ohs → Waits later k)
            → Waits later k
        found k later (Memᴰ.head same) here there = subst (Waits later) (sym same) here
        found k later (Memᴰ.tail m) here there = there m

    -- On a valid chain, for an order that visits every orphan and with more fuel than orphans, the loop
    -- ends by its test, and no orphan is left whose parent is stored.
    pub try_connect_orphans-IsSettled :
        Covers order
        → (fuel : ℕ) (bc : Blockchain) → IsValid D bc
        → length bc.orphans < fuel
        → ((try_connect_orphans D order fuel bc).1 ≡ true)
          × IsSettled (try_connect_orphans D order fuel bc).0
    unfolding try_connect_orphans
    try_connect_orphans-IsSettled all zero bc v lt = absurd (omega arith)
    try_connect_orphans-IsSettled all (suc fuel) bc v lt =
        let ohs = order bc.orphans in
        let s = sweep D order (bc, false) ohs in
        let x = sweep-Advances D order ohs (bc, false) v in
        elim (Bool-cases s.1) [
          | inl more ↦
              let less = (sweep_shrinks D order ohs (bc, false)).1 refl more in
              rw more (try_connect_orphans-IsSettled all fuel s.0 x.valid (omega arith))
          | inr done ↦
              let ((e, old), w) = sweep-Rests ohs (bc, false) v done in
              rw done (refl, λ oh ob f. w oh (all bc.orphans oh ob (old oh ob f)) ob f)
        ]

    -- What `AddBlock` comes to: an error of the source with the chain as it was, or a report on the
    -- block that was given, and then every orphan connected that can be.
    abbrev pub Completes : Blockchain → Option Block → Blockchain × Result AddResult → Type 0
    Completes bc b (after, err e) = (after ≡ bc) × IsRefusal e
    Completes bc b (after, ok r) = IsReport bc (add_block_unlocked D bc b).0 r × IsSettled after

    finish :
        (bc : Blockchain) (b : Option Block) (s : Blockchain × Result AddResult)
        (t : Blockchain × Bool)
        → s ≡ add_block_unlocked D bc b
        → Reports bc s
        → (t.1 ≡ true) × IsSettled t.0
        → Completes bc b (elim s.1 [
          | err e ↦ (s.0, err e)
          | ok res ↦ (t.0, if t.1 then ok res else err diverged)
        ])
    finish bc b (mid, err e) t q h w = h
    finish bc b (mid, ok r) (after, ended) q h w =
        rw w.0 (subst (λ (x : Blockchain × Result AddResult). IsReport bc x.0 r) q h, w.1)

    -- On a valid chain, and for an order that visits every orphan, `AddBlock` ends. It returns an error of
    -- the source and leaves the chain as it was, or it returns a true report on the chain before the
    -- orphans are connected and leaves no orphan whose parent is stored.
    pub add_block-Completes :
        Covers order
        → (bc : Blockchain) (b : Option Block) → IsValid D bc
        → Completes bc b (add_block D order bc b)
    unfolding add_block
    add_block-Completes all bc b v =
        let s = add_block_unlocked D bc b in
        finish bc b s (try_connect_orphans D order (suc (length s.0.orphans)) s.0) refl
          (add_block_unlocked-Reports D bc b v)
          (try_connect_orphans-IsSettled all (suc (length s.0.orphans)) s.0
            (add_block_unlocked-Advances D bc v b).valid (omega arith))
