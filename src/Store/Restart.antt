-- ===== src/Store/Restart.antt =====
-- `ApplyTipChange` as a change of the list of blocks that a restart finds.
use go_sim_chain.Prelude.{
  ℕ, suc, ◌<◌, ◌≡◌, refl, sym, subst, List, [], ◌∷◌, ◌++◌, Option, none, some, arith, All, length,
  length-take, take, ◌==◌, if◌then◌else◌, if_cases, nat_eq,
}
use go_sim_chain.Types.{Hash, Block}
use go_sim_chain.Crypto.{Digests}
use go_sim_chain.Chain.State.{Blockchain, Reorg, block_by_hash}
use go_sim_chain.Store.Disk.{
  Manifest, Format, Store, StoreError, bad_json, difficulty_mismatch, init_new, load_loop,
  open_store, loaded, load_main_chain,
}
use go_sim_chain.Store.Change.{append_tip, rollback_to, apply_tip_change}
use go_sim_chain.Store.Saved.{IsFormat, Legible, Numbered}
use go_sim_chain.Store.Persisted.{
  IsPersisted, IsFlushed, Written, write_added-Written, append_tip-Written, rollback_to-IsPersisted,
  load_loop-Saved,
}

-- What a change of the tip makes of the main chain: one block more; or, after a reorg, the blocks up to
-- the common ancestor with the added ones on top. JSON gives back each block that is new.
abbrev pub IsNext :
    {F : Format} → IsFormat F → Blockchain → List Block → Hash → Option Reorg → List Block → Type 0
IsNext v bc bs tip none cs =
    (b : Block) × (block_by_hash bc tip ≡ some b)
    × (b.hash ≡ tip)
    × Numbered (length bs) (b ∷ [])
    × Legible v b
    × (cs ≡ bs ++ b ∷ [])
IsNext v bc bs tip (some r) cs =
    (a : Block) × (block_by_hash bc r.common_ancestor ≡ some a)
    × (a.header.height < length bs)
    × Numbered (suc a.header.height) r.added
    × All (Legible v) r.added
    × (cs ≡ take (suc a.header.height) bs ++ r.added)

module _ (F : Format) (v : IsFormat F) (D : Digests) where
  apply-Written :
      (bc : Blockchain) (s : Store) (bs cs : List Block) (tip : Hash) (r : Option Reorg) (now : ℕ)
      → IsPersisted F s bs
      → IsNext v bc bs tip r cs
      → Written F v D (apply_tip_change F D bc s tip r now) cs
  unfolding apply_tip_change
  apply-Written bc s bs cs tip none now p (b, found, name, (next, named, _), legible, same) =
      subst (Written F v D (apply_tip_change F D bc s tip none now)) (sym same) (
        rw (found, apply_tip_change)
          (subst (λ h. Written F v D (append_tip F D s b h now) (bs ++ b ∷ [])) name
            (append_tip-Written F v D s bs b now p next named legible)))
  apply-Written bc s bs cs tip (some r) now p (a, found, below, numbered, legible, same) =
      subst (Written F v D (apply_tip_change F D bc s tip (some r) now)) (sym same) (
        rw (found, apply_tip_change)
          (write_added-Written F v D r.added (rollback_to F s a.header.height) _ now
            (rollback_to-IsPersisted F v D s bs a.header.height p below)
            (subst (λ n. Numbered n r.added) (omega (arith, length-take (suc a.header.height) bs))
              numbered)
            legible))

  -- A restart finds what was persisted.
  pub open_store-loaded :
      (s : Store) (bs : List Block) (genesis : Block) (now : ℕ)
      → IsPersisted F s bs
      → IsFlushed v s
      → (open_store F D s.disk s.manifest.difficulty genesis now ≡ (s, none))
        × (load_main_chain F s now ≡ (s, loaded bs))
  unfolding open_store load_main_chain
  open_store-loaded s bs genesis now p flushed =
      let blank : Manifest = record {
        version = 0;
        difficulty = 0;
        tip_height = 0;
        tip_hash = 0;
        updated_at = 0;
      } in
      let decoded : Option Manifest → Store × Option StoreError = λ o. elim o [
        | none ↦ (record { disk = s.disk; manifest = blank }, some bad_json)
        | some m ↦ (
          record { disk = s.disk; manifest = m },
          if m.difficulty == s.manifest.difficulty then none else some difficulty_mismatch,
        )
      ] in
      let read : Option (List ℕ) → Store × Option StoreError = λ o. elim o [
        | none ↦ init_new F D s.disk s.manifest.difficulty genesis now
        | some raw ↦ decoded (F.decode_manifest raw)
      ] in
      (
        subst (λ o. read o ≡ (s, none)) (sym flushed)
            (subst (λ o. decoded o ≡ (s, none)) (sym (v.decodes_manifest s.manifest))
              (if_cases
                (λ (e : Option StoreError). Path (Store × Option StoreError) (s, e) (s, none))
                (s.manifest.difficulty == s.manifest.difficulty) (λ _. refl)
                (λ differ. absurd (ground arith)))),
        subst (λ n. load_loop F n 0 0 s now ≡ (s, loaded bs)) (sym p.tip_height)
            (load_loop-Saved F v D bs 0 0 s now p.saved),
      )

  -- Where the store holds the main chain `bs`, no write fails, JSON writes each value and gives back each
  -- manifest and each new block, `ApplyTipChange` makes it hold the next main chain: `bs` and the new tip, where that is one height
  -- above; or, for a reorg to blocks of consecutive heights, `bs` up to the common ancestor and then the
  -- added blocks. `Open` and `LoadMainChain` in a new process then give exactly this chain.
  pub apply_tip_change-IsNext :
      (bc : Blockchain) (s : Store) (bs cs : List Block) (tip : Hash) (r : Option Reorg)
      (genesis : Block) (now later : ℕ)
      → IsPersisted F s bs
      → IsNext v bc bs tip r cs
      → (t : Store) × (apply_tip_change F D bc s tip r now ≡ (t, none))
        × IsPersisted F t cs
        × (open_store F D t.disk t.manifest.difficulty genesis later ≡ (t, none))
        × (load_main_chain F t later ≡ (t, loaded cs))
  apply_tip_change-IsNext bc s bs cs tip r genesis now later p next =
      let (t, e, q, flushed) = apply-Written bc s bs cs tip r now p next in
      let (opened, same) = open_store-loaded t cs genesis later q flushed in (t, e, q, opened, same)
