-- ===== src/Chain/Switch.antt =====
-- `computeReorgUnlocked` on a valid tree: the two branches below the lowest common ancestor.
use go_sim_chain.Prelude.{
  ℕ, suc, ◌+◌, ◌-◌, ◌≤◌, ◌<◌, ◌≡◌, ◌≢◌, refl, sym, ◌∙◌, ap, subst, inl, inr, List, some, false,
  nat_eq, arith, Bool-cases, ◌==◌, ltb, length, reverse,
}
use mathlib.Core.List.{reverse-reverse}
use go_sim_chain.Map
use go_sim_chain.Types.{Hash, Block}
use go_sim_chain.Crypto.{Digests}
use go_sim_chain.Chain.State.{Blockchain, Reorg, ok}
use go_sim_chain.Chain.Walk.{climb, meet, segment, compute_reorg}
use go_sim_chain.Chain.Valid.{IsValid}
use go_sim_chain.Chain.Ancestry.{
  Descent, IsAncestor, At, At-unique, climb_add, height_of, At-climb, Descent-climb,
  segment-Descent, meet-Meets,
}

-- What a reorg from the stored tip `old` to the stored tip `new` must be: each list, oldest first,
-- leads from the common ancestor to its tip, and every stored common ancestor is at or below it.
pub record IsReorg (bc : Blockchain) (old new : Hash) (r : Reorg) : Type 0 where
  pub removed_branch : Descent bc old (reverse r.removed) r.common_ancestor
  pub added_branch : Descent bc new (reverse r.added) r.common_ancestor
  pub lowest :
      (a : Hash) → IsAncestor bc a old → IsAncestor bc a new → IsAncestor bc a r.common_ancestor

compute_reorg_steps :
    (bc : Blockchain) (old new : Hash) {oh nh : ℕ} {common : Hash} {bs cs : List Block}
    → (old == new) ≡ false
    → Map.get_or old bc.height 0 ≡ oh
    → Map.get_or new bc.height 0 ≡ nh
    → meet bc (suc oh) (climb bc (oh - nh) old) (climb bc (nh - oh) new) ≡ ok common
    → segment bc (suc oh) old common ≡ ok bs
    → segment bc (suc nh) new common ≡ ok cs
    → compute_reorg bc old new
      ≡ ok (some (record { common_ancestor = common; removed = reverse bs; added = reverse cs }))
unfolding compute_reorg
compute_reorg_steps bc old new differ e_old e_new met removed added =
    rw (differ, e_old, e_new, met, removed, added)

module _ (D : Digests) (bc : Blockchain) (v : IsValid D bc) where
  -- The ancestor of height `m` on the way down from `h`, as a climb from an ancestor above it.
  climb-climb :
      (j k n : ℕ) (h : Hash)
      → At bc n h
      → k ≤ j
      → j ≤ n
      → IsAncestor bc (climb bc j h) (climb bc k h)
  climb-climb j k n h a kj jn =
      let below = At-climb D bc v k (n - k) n h (omega arith) a in
      let e = climb_add bc k (j - k) j h (omega arith) in
      let (bs, _, d) =
        segment-Descent D bc v (suc n) (j - k) (n - k) (climb bc k h) below (omega arith)
          (omega arith) in
      (bs, subst (Descent bc (climb bc k h) bs) (sym e) d)

  -- A hash that both walks reach lies at or below the one where they first agree.
  lowest_common :
      (oh nh k : ℕ) (old new a : Hash)
      → At bc oh old
      → At bc nh new
      → (i j : ℕ) → a ≡ climb bc i old
      → i ≤ oh
      → a ≡ climb bc j new
      → j ≤ nh
      → ((m : ℕ)
          → m < k
          → climb bc m (climb bc (oh - nh) old) ≢ climb bc m (climb bc (nh - oh) new))
      → (oh - nh) + k ≤ i
  lowest_common oh nh k old new a x y i j p i_le q j_le apart =
      let old_at =
        subst (At bc (oh - i)) (sym p) (At-climb D bc v i (oh - i) oh old (omega arith) x) in
      let new_at =
        subst (At bc (nh - j)) (sym q) (At-climb D bc v j (nh - j) nh new (omega arith) y) in
      let level : oh - i ≡ nh - j = At-unique bc _ _ a old_at new_at in
      let m = i - (oh - nh) in
      elim (Bool-cases (ltb m k)) [
        | inr far ↦ ground arith
        | inl near ↦ absurd (
            apart m (ground arith) (
              sym (climb_add bc (oh - nh) m i old (omega arith))
              ∙ sym p
              ∙ q
              ∙ climb_add bc (nh - oh) m j new (omega arith)))
      ]

  -- In a valid tree, between two stored blocks that differ, `computeReorgUnlocked` ends and yields the
  -- blocks down to the lowest common ancestor: those of the old branch as removed and those of the new
  -- one as added, each from the oldest on.
  pub compute_reorg-IsReorg :
      (old new : Hash) (b c : Block)
      → Map.lookup old bc.blocks ≡ some b
      → Map.lookup new bc.blocks ≡ some c
      → old ≢ new
      → (r : Reorg) × (compute_reorg bc old new ≡ ok (some r)) × IsReorg bc old new r
  compute_reorg-IsReorg old new b c found_old found_new differ =
      let oh = b.header.height in
      let nh = c.header.height in
      let x : At bc oh old = record { block = b; found = found_old; height = refl } in
      let y : At bc nh new = record { block = c; found = found_new; height = refl } in
      let o = climb bc (oh - nh) old in
      let p = climb bc (nh - oh) new in
      let low = oh - (oh - nh) in
      let (k, le, met, both, apart) =
        meet-Meets D bc v (suc oh) low o p (At-climb D bc v (oh - nh) low oh old (omega arith) x)
          (At-climb D bc v (nh - oh) low nh new (omega arith) y) (omega arith) in
      let i = (oh - nh) + k in
      let j = (nh - oh) + k in
      let common = climb bc i old in
      let from_old : climb bc k o ≡ common = sym (climb_add bc (oh - nh) k i old refl) in
      let from_new : climb bc j new ≡ common =
        climb_add bc (nh - oh) k j new refl ∙ sym both ∙ from_old in
      let (bs, e, d) = segment-Descent D bc v (suc oh) i oh old x (omega arith) (omega arith) in
      let (cs, e', d') = segment-Descent D bc v (suc nh) j nh new y (omega arith) (omega arith) in
      let apart_tips : (old == new) ≡ false = ground arith in
      let e_new : segment bc (suc nh) new common ≡ ok cs =
        subst (λ z. segment bc (suc nh) new z ≡ ok cs) from_new e' in
      let r : Reorg = record {
        common_ancestor = common;
        removed = reverse bs;
        added = reverse cs;
      } in
      (
        r,
        compute_reorg_steps bc old new {oh = oh} {nh = nh} {common = common} {bs = bs} {cs = cs}
            apart_tips (height_of D bc v oh old x) (height_of D bc v nh new y)
            (met ∙ ap ok from_old) e e_new,
        record {
          removed_branch = rw (reverse-reverse bs) d;
          added_branch = rw (reverse-reverse cs) (subst (Descent bc new cs) from_new d');
          lowest = λ a (us, u) (ws, w).
              let (p, p_le) = Descent-climb D bc v oh old us a x u in
              let (q, q_le) = Descent-climb D bc v nh new ws a y w in
              let far =
                lowest_common oh nh k old new a x y (length us) (length ws) p p_le q q_le apart in
              subst (λ (z : Hash). IsAncestor bc z common) (sym p)
                (climb-climb (length us) i oh old x far p_le);
        },
      )
