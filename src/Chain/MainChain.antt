-- ===== src/Chain/MainChain.antt =====
-- The main chain, and the locator that samples it, on a valid tree.
use go_sim_chain.Prelude.{
  ℕ, zero, suc, ◌+◌, ◌-◌, ◌*◌, ◌%◌, ◌^◌, ◌≤◌, ◌<◌, ◌≡◌, ◌≢◌, refl, sym, ap, subst, ◌⊎◌, inl, inr,
  List, [], ◌∷◌, ◌++◌, some, false, ◌||◌, nat_eq, arith, Bool-cases, ◌==◌, leb, if◌then◌else◌,
  length, reverse, All,
}
use go_sim_chain.Prelude.Int.{ℤ, or_default}
use go_sim_chain.Map
use go_sim_chain.Types.{Hash, Block, is_zero, zero_hash}
use go_sim_chain.Crypto.{Digests}
use go_sim_chain.Chain.State.{Blockchain, ok, tip_height}
use go_sim_chain.Chain.Walk.{parent_of, climb}
use go_sim_chain.Chain.Query.{locate, locator, back_to_genesis, main_chain_hashes}
use go_sim_chain.Chain.Valid.{IsValid}
use go_sim_chain.Chain.Ancestry.{
  Descent, IsAncestor, At, At-unique, At-climb, height_of, segment-Descent, At-zero, At-parent_of,
  parent_of-prev_hash,
}

Descent-append :
    (bc : Blockchain) (h m a : Hash) (bs cs : List Block)
    → Descent bc h bs m
    → Descent bc m cs a
    → Descent bc h (bs ++ cs) a
Descent-append bc h m a [] cs d e = subst (λ x. Descent bc x cs a) (sym d) e
Descent-append bc h m a (b ∷ bs) cs d e =
    (d.0, d.1, Descent-append bc b.header.prev_hash m a bs cs d.2 e)

-- The hashes from `h` back to genesis, each the parent of the one before it.
abbrev pub LeadsBack : Blockchain → Hash → List Hash → Type 0
LeadsBack bc h [] = ⊥
LeadsBack bc h (x ∷ xs) =
    (x ≡ h)
    × (((xs ≡ []) × (h ≡ bc.genesis))
        ⊎ ((b : Block) × (Map.lookup h bc.blocks ≡ some b)
            × (0 < b.header.height)
            × LeadsBack bc b.header.prev_hash xs))

module _ (D : Digests) (bc : Blockchain) (v : IsValid D bc) where
  climb-IsAncestor : (k n : ℕ) (h : Hash) → At bc n h → k ≤ n → IsAncestor bc (climb bc k h) h
  climb-IsAncestor k n h a le =
      let (bs, _, d) = segment-Descent D bc v (suc k) k n h a le (omega arith) in (bs, d)

  -- Every hash of a locator is an ancestor of where it starts.
  locate-All :
      (room taken n step : ℕ) (top h : Hash)
      → At bc n h
      → IsAncestor bc h top
      → All (λ x. IsAncestor bc x top) (locate bc room taken h n step)
  unfolding locate
  locate-All zero taken n step top h a up = tt
  locate-All (suc room) taken n step top h a (bs, d) =
      let back = if leb step n then step else n in
      let le : back ≤ n = ground arith in
      let (cs, e) = climb-IsAncestor back n h a le in
      let rest =
        locate-All room (taken + 1) (n - back)
          (if leb 10 (taken + 1) then (step * 2) % 2 ^ 64 else step) top (climb bc back h)
          (At-climb D bc v back (n - back) n h (omega arith) a)
          (bs ++ cs, Descent-append bc top h (climb bc back h) bs cs d e) in
      elim (Bool-cases (h == bc.genesis || n == 0)) [
        | inl last ↦ rw last ((bs, d), tt)
        | inr more ↦ rw more ((bs, d), rest)
      ]

  length-locate-le :
      (room taken n step : ℕ) (h : Hash) → length (locate bc room taken h n step) ≤ room
  unfolding locate
  length-locate-le zero taken n step h = omega arith
  length-locate-le (suc room) taken n step h =
      let back = if leb step n then step else n in
      let rest =
        length-locate-le room (taken + 1) (n - back)
          (if leb 10 (taken + 1) then (step * 2) % 2 ^ 64 else step) (climb bc back h) in
      elim (Bool-cases (h == bc.genesis || n == 0)) [
        | inl last ↦ rw last (omega arith)
        | inr more ↦ rw more (omega arith)
      ]

  above_genesis : (n : ℕ) (h : Hash) → At bc (suc n) h → (h == bc.genesis) ≡ false
  above_genesis n h a = elim (Bool-cases (h == bc.genesis)) [
    | inr away ↦ away
    | inl same ↦
        let e : bc.genesis ≡ h = ground arith in
        let (g, found, low) = v.genesis_at in
        let b : At bc 0 h = subst (At bc 0) e (record { block = g; found = found; height = low }) in
        absurd (omega (arith, At-unique bc (suc n) 0 h a b))
  ]

  -- `back_to_genesis` ends within its fuel.
  back_to_genesis-LeadsBack :
      (fuel n : ℕ) (h : Hash)
      → At bc n h
      → n < fuel
      → (hs : List Hash) × (back_to_genesis bc fuel h ≡ ok hs)
        × LeadsBack bc h hs
        × (length hs ≡ suc n)
  unfolding back_to_genesis
  back_to_genesis-LeadsBack zero n h a lt = absurd (omega arith)
  back_to_genesis-LeadsBack (suc fuel) zero h a lt =
      let e = At-zero D bc v h a in (h ∷ [], ground arith, (refl, inl (refl, e)), refl)
  back_to_genesis-LeadsBack (suc fuel) (suc n) h a lt =
      let high : 0 < a.block.header.height = omega (arith, a.height) in
      let (e, up) = parent_of-prev_hash D bc v h a.block a.found high in
      let (hs, p, back, len) =
        back_to_genesis-LeadsBack fuel n (parent_of bc h) (At-parent_of D bc v n h a)
          (omega arith) in
      (
        h ∷ hs,
        rw (above_genesis n h a, p),
        (refl, inr (a.block, a.found, high, subst (λ x. LeadsBack bc x hs) e back)),
        ap suc len,
      )

  -- In a valid tree whose tip is not the zero hash, the main chain leads along headers from genesis to the
  -- tip, with one hash for each height.
  pub main_chain_hashes-LeadsBack :
      bc.tip ≢ zero_hash
      → (hs : List Hash) × (main_chain_hashes bc ≡ ok (reverse hs))
        × LeadsBack bc bc.tip hs
        × (length hs ≡ suc (tip_height bc))
  unfolding main_chain_hashes tip_height
  main_chain_hashes-LeadsBack nonzero =
      let n = v.tip_block.header.height in
      let a : At bc n bc.tip = record { block = v.tip_block; found = v.tip_found; height = refl } in
      let (hs, p, back, len) = back_to_genesis-LeadsBack (suc n) n bc.tip a (omega arith) in
      let e = height_of D bc v n bc.tip a in
      let z : is_zero bc.tip ≡ false = ground arith in (hs, rw (z, e, p), back, rw e len)

  -- In a valid tree a locator has at most `max` hashes (32 where that is not positive), all of them the tip
  -- or ancestors of it.
  pub locator-IsAncestor :
      (max : ℤ)
      → All (λ x. IsAncestor bc x bc.tip) (locator bc max)
        × (length (locator bc max) ≤ or_default max 32)
  unfolding locator
  locator-IsAncestor max =
      let n = v.tip_block.header.height in
      let a : At bc n bc.tip = record { block = v.tip_block; found = v.tip_found; height = refl } in
      rw (height_of D bc v n bc.tip a) (
        locate-All (or_default max 32) 0 n 1 bc.tip bc.tip a ([], refl),
        length-locate-le (or_default max 32) 0 n 1 bc.tip,
      )
