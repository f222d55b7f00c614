-- ===== src/Store/Reorged.antt =====
-- The store after a reorg of a valid block tree.
use mathlib.Core.List.{reverse-cons, reverse-reverse}
use go_sim_chain.Prelude.{
  ℕ, suc, ◌+◌, ◌≤◌, ◌<◌, ◌≡◌, refl, sym, ◌∙◌, subst, inl, inr, List, [], ◌∷◌, ◌++◌, none, some,
  false, arith, All, All-append, length, length-reverse, reverse, take, ◌-◌, ◌≢◌, ==_iff,
  length-append, length-take, nat_eq, Bool-cases,
}
use go_sim_chain.Map
use go_sim_chain.Types.{Hash, Block, is_zero, zero_hash}
use go_sim_chain.Crypto.{Digests}
use go_sim_chain.Chain.State.{Blockchain, Reorg, ok, block_by_hash}
use go_sim_chain.Chain.Valid.{IsValid}
use go_sim_chain.Chain.Ancestry.{Descent, At, At-unique, At-climb, Descent-climb}
use go_sim_chain.Chain.Switch.{compute_reorg-IsReorg}
use go_sim_chain.Chain.Walk.{compute_reorg}
use go_sim_chain.Store.Disk.{Format, Store, loaded, load_main_chain}
use go_sim_chain.Store.Change.{apply_tip_change}
use go_sim_chain.Store.Saved.{IsFormat, Legible, Numbered, Numbered-append}
use go_sim_chain.Store.Persisted.{IsPersisted}
use go_sim_chain.Store.Restart.{IsNext, apply_tip_change-IsNext}

module _ (D : Digests) (bc : Blockchain) (v : IsValid D bc)
    (no_zero : Map.lookup zero_hash bc.blocks ≡ none) where
  has_hash : (h : Hash) (b : Block) → Map.lookup h bc.blocks ≡ some b → is_zero b.hash ≡ false
  has_hash h b found = elim (Bool-cases (is_zero b.hash)) as (λ _. is_zero b.hash ≡ false) [
    | inr named ↦ named
    | inl nought ↦
        let at_zero : h ≡ 0 = sym (v.stored h b found).named ∙ (==_iff b.hash 0).0 nought in
        absurd (ground (arith, no_zero, subst (λ k. Map.lookup k bc.blocks ≡ some b) at_zero found))
  ]

  -- The blocks down to an ancestor have the heights above it.
  Descent-Numbered :
      (bs : List Block) (h a : Hash) (n : ℕ)
      → Descent bc h bs a
      → At bc n a
      → Numbered (suc n) (reverse bs) × At bc (n + length bs) h
  Descent-Numbered [] h a n same at =
      (tt, subst (λ m. At bc m h) (omega arith) (subst (At bc n) (sym same) at))
  Descent-Numbered (b ∷ bs) h a n (found, high, rest) at =
      let (numbered, below) = Descent-Numbered bs b.header.prev_hash a n rest at in
      elim (v.stored h b found).origin [
        | inl g ↦ absurd (omega (arith, g.height_zero))
        | inr c ↦
            let above : At bc c.above.header.height b.header.prev_hash = record {
              block = c.above;
              found = c.found;
              height = refl;
            } in
            let same =
              At-unique bc c.above.header.height (n + length bs) b.header.prev_hash above below in
            let next : b.header.height ≡ suc n + length (reverse bs) =
              omega (arith, c.height_step, same, length-reverse bs) in
            (
              subst (Numbered (suc n)) (sym (reverse-cons b bs)) (
                  Numbered-append (suc n) (reverse bs) (b ∷ []) numbered
                    (next, has_hash h b found, tt)),
              record { block = b; found = found; height = omega (arith, c.height_step, same) },
            )
      ]

  Descent-All :
      (P : Block → Type 0)
      → ((h : Hash) (b : Block) → Map.lookup h bc.blocks ≡ some b → P b)
      → (bs : List Block) (h a : Hash) → Descent bc h bs a
      → All P (reverse bs)
  Descent-All P each [] h a d = tt
  Descent-All P each (b ∷ bs) h a (found, _, rest) = subst (All P) (sym (reverse-cons b bs)) (
      All-append P (reverse bs) (b ∷ []) (Descent-All P each bs b.header.prev_hash a rest)
        (each h b found, tt))

  Descent-At :
      (n : ℕ) (h : Hash) (bs : List Block) (a : Hash)
      → At bc n h
      → Descent bc h bs a
      → At bc (n - length bs) a × (length bs ≤ n)
  Descent-At n h bs a x d =
      let (same, low) = Descent-climb D bc v n h bs a x d in
      (
        subst (At bc (n - length bs)) (sym same)
            (At-climb D bc v (length bs) (n - length bs) n h (omega (arith, low)) x),
        low,
      )

  -- Where the tree is valid, has no block of hash zero and stores two tips that differ, JSON writes each
  -- value and gives back each manifest and each block of the tree, no write fails, and the store holds a main chain that ends at the height of the old
  -- tip: `ComputeReorg` between the tips gives a reorg, and `ApplyTipChange` with it makes the store hold
  -- that chain up to the height of the common ancestor and then the added blocks. This ends at the
  -- height of the new tip, and `LoadMainChain` reads exactly it.
  pub apply_tip_change-reorg :
      (F : Format) (w : IsFormat F) (old new : Hash) (b c : Block) (s : Store) (bs : List Block)
      (now later : ℕ)
      → Map.lookup old bc.blocks ≡ some b
      → Map.lookup new bc.blocks ≡ some c
      → old ≢ new
      → ((h : Hash) (d : Block) → Map.lookup h bc.blocks ≡ some d → Legible w d)
      → IsPersisted F s bs
      → length bs ≡ suc b.header.height
      → (r : Reorg) × (compute_reorg bc old new ≡ ok (some r))
        × (t : Store) × (a : ℕ) × (cs : List Block) × (apply_tip_change F D bc s new (some r) now
            ≡ (t, none))
        × At bc a r.common_ancestor
        × (cs ≡ take (suc a) bs ++ r.added)
        × (length cs ≡ suc c.header.height)
        × (load_main_chain F t later ≡ (t, loaded cs))
  unfolding block_by_hash
  apply_tip_change-reorg F w old new b c s bs now later found_old found_new differ legible p long =
      let (r, computed, good) =
        compute_reorg-IsReorg D bc v old new b c found_old found_new differ in
      let (x, low) =
        Descent-At b.header.height old (reverse r.removed) r.common_ancestor
          (record { block = b; found = found_old; height = refl }) good.removed_branch in
      let n = x.block.header.height in
      let at : At bc n r.common_ancestor = record {
        block = x.block;
        found = x.found;
        height = refl;
      } in
      let (numbered, top) =
        Descent-Numbered (reverse r.added) new r.common_ancestor n good.added_branch at in
      let high =
        At-unique bc (n + length (reverse r.added)) c.header.height new top
          (record { block = c; found = found_new; height = refl }) in
      let inside : n < length bs = omega (arith, low, long, x.height) in
      let next : IsNext w bc bs new (some r) (take (suc n) bs ++ r.added) = (
        x.block,
        x.found,
        inside,
        subst (Numbered (suc n)) (reverse-reverse r.added) numbered,
        subst (All (Legible w)) (reverse-reverse r.added) (
            Descent-All (Legible w) legible (reverse r.added) new r.common_ancestor
              good.added_branch),
        refl,
      ) in
      let (t, e, _, _, same) =
        apply_tip_change-IsNext F w D bc s bs (take (suc n) bs ++ r.added) new (some r) b now later
          p next in
      (
        r,
        computed,
        t,
        n,
        take (suc n) bs ++ r.added,
        e,
        at,
        refl,
        omega (
          arith,
          high,
          inside,
          length-append (take (suc n) bs) r.added,
          length-take (suc n) bs,
          length-reverse r.added,
        ),
        same,
      )
