-- ===== src/Store/Persisted.antt =====
-- The store against the list of blocks that it should hold.
use go_sim_chain.Prelude.{
  ℕ, zero, suc, ◌+◌, ◌-◌, ◌<◌, ◌≡◌, refl, sym, ◌∙◌, ap, subst, List, [], ◌∷◌, ◌++◌, Option, none,
  some, false, arith, All, length, length-append, length-take, take, leb, if_cases, nat_eq,
}
use go_sim_chain.Map
use go_sim_chain.Map.{Map}
use go_sim_chain.Types.{Hash, Block, is_zero}
use go_sim_chain.Crypto.{Digests}
use go_sim_chain.Store.Disk.{
  Format, Disk, Store, StoreError, save_manifest, found, read_block_file, loaded, load_loop,
}
use go_sim_chain.Store.Change.{remove_above, at_tip, rollback_to, write_added, append_tip}
use go_sim_chain.Store.Saved.{
  IsFormat, Legible, Numbered, Saved, IsHealthy, Numbered-append, Saved-append, Saved-take,
  Saved-same, read-same, remove_above-lookup, remove_above-fails, with_file, read-with_file,
  write_block_file_lem, with_manifest, save_manifest_lem,
}

-- The hash of the last block.
abbrev pub last_hash : Hash → List Block → Hash
last_hash h [] = h
last_hash h (b ∷ bs) = last_hash b.hash bs

last_hash-append : (h : Hash) (bs : List Block) (b : Block) → last_hash h (bs ++ b ∷ []) ≡ b.hash
last_hash-append h [] b = refl
last_hash-append h (c ∷ bs) b = last_hash-append c.hash bs b

-- The store holds the blocks `bs` of the heights from 0 on, and its manifest names the last of them. No
-- write to its disk fails.
pub record IsPersisted (F : Format) (s : Store) (bs : List Block) : Type 0 where
  pub healthy : IsHealthy s.disk
  pub saved : Saved F s.disk 0 bs
  pub numbered : Numbered 0 bs
  pub tip_height : suc s.manifest.tip_height ≡ length bs
  pub tip_hash : s.manifest.tip_hash ≡ last_hash 0 bs

-- The manifest on disk is that of the store.
abbrev pub IsFlushed : {F : Format} → IsFormat F → Store → Type 0
IsFlushed v s = s.disk.manifest ≡ some (v.manifest_text s.manifest)

module _ (F : Format) (v : IsFormat F) (D : Digests) where
  -- One block more.
  file-IsPersisted :
      (s : Store) (bs : List Block) (b : Block)
      → IsPersisted F s bs
      → b.header.height ≡ length bs
      → is_zero b.hash ≡ false
      → Legible v b
      → IsPersisted F (at_tip (with_file F v D s b) b.header.height b.hash) (bs ++ b ∷ [])
  unfolding read_block_file
  file-IsPersisted s bs b p next named legible =
      let at : b.header.height ≡ 0 + length bs = omega arith in
      record {
        healthy = p.healthy;
        saved =
            Saved-append F (with_file F v D s b).disk 0 bs (b ∷ [])
              (Saved-same F s.disk (with_file F v D s b).disk 0 bs
                (λ h lt.
                  Map.lookup-insert_ne b.header.height h (v.block_text b) s.disk.blocks
                    (λ e. absurd (omega arith)))
                p.saved)
              (
                subst (λ n. read_block_file F (with_file F v D s b).disk n ≡ found b) at
                    (read-with_file F v D s b legible),
                tt,
              );
        numbered = Numbered-append 0 bs (b ∷ []) p.numbered (at, named, tt);
        tip_height = omega (arith, length-append bs (b ∷ []));
        tip_hash = sym (last_hash-append 0 bs b);
      }

  manifest-IsPersisted :
      (s : Store) (bs : List Block) (now : ℕ)
      → IsPersisted F s bs
      → IsPersisted F (with_manifest F v D s now) bs
  manifest-IsPersisted s bs now p = record {
    healthy = p.healthy;
    saved = Saved-same F s.disk _ 0 bs (λ h lt. refl) p.saved;
    numbered = p.numbered;
    tip_height = p.tip_height;
    tip_hash = p.tip_hash;
  }

  -- A run of blocks on top of the chain, and the manifest.
  abbrev pub Written : Store × Option StoreError → List Block → Type 0
  Written r bs = (s : Store) × (r ≡ (s, none)) × IsPersisted F s bs × IsFlushed v s

  pub save_manifest-Written :
      (s : Store) (bs : List Block) (now : ℕ)
      → IsPersisted F s bs
      → Written (save_manifest F s now) bs
  save_manifest-Written s bs now p = (
    with_manifest F v D s now,
    save_manifest_lem F v D s now p.healthy,
    manifest-IsPersisted s bs now p,
    refl,
  )

  append_assoc :
      (xs : List Block) (b : Block) (bs : List Block) → (xs ++ b ∷ []) ++ bs ≡ xs ++ b ∷ bs
  append_assoc [] b bs = refl
  append_assoc (x ∷ xs) b bs = ap (λ r. x ∷ r) (append_assoc xs b bs)

  append_nil : (xs : List Block) → xs ++ [] ≡ xs
  append_nil [] = refl
  append_nil (x ∷ xs) = ap (λ r. x ∷ r) (append_nil xs)

  pub write_added-Written :
      (bs : List Block) (s : Store) (xs : List Block) (now : ℕ)
      → IsPersisted F s xs
      → Numbered (length xs) bs
      → All (Legible v) bs
      → Written (write_added F D s bs now) (xs ++ bs)
  unfolding write_added
  write_added-Written [] s xs now p _ _ =
      subst (Written (save_manifest F s now)) (sym (append_nil xs))
        (save_manifest-Written s xs now p)
  write_added-Written (b ∷ bs) s xs now p (next, named, more) (legible, all) =
      let s' = at_tip (with_file F v D s b) b.header.height b.hash in
      let q = file-IsPersisted s xs b p next named legible in
      let rest =
        write_added-Written bs s' (xs ++ b ∷ []) now q
          (subst (λ n. Numbered n bs) (omega (arith, length-append xs (b ∷ []))) more) all in
      subst
        (λ (r : Store × Option StoreError).
          Written
            (elim r.1 [
              | some e ↦ (r.0, some e)
              | none ↦ write_added F D (at_tip r.0 b.header.height b.hash) bs now
            ])
            (xs ++ b ∷ bs))
        (sym (write_block_file_lem F v D s b p.healthy named))
        (subst (Written (write_added F D s' bs now)) (append_assoc xs b bs) rest)

  pub append_tip-Written :
      (s : Store) (xs : List Block) (b : Block) (now : ℕ)
      → IsPersisted F s xs
      → b.header.height ≡ length xs
      → is_zero b.hash ≡ false
      → Legible v b
      → Written (append_tip F D s b b.hash now) (xs ++ b ∷ [])
  unfolding append_tip
  append_tip-Written s xs b now p next named legible =
      let q = file-IsPersisted s xs b p next named legible in
      let new : leb b.header.height s.manifest.tip_height ≡ false = ground (arith, p.tip_height) in
      if_cases (λ r. Written r (xs ++ b ∷ [])) (leb b.header.height s.manifest.tip_height)
        (λ old. absurd (ground (arith, new, old)))
        (λ _.
          subst
            (λ (r : Store × Option StoreError).
              Written
                (elim r.1 [
                  | some e ↦ (r.0, some e)
                  | none ↦ save_manifest F (at_tip r.0 b.header.height b.hash) now
                ])
                (xs ++ b ∷ []))
            (sym (write_block_file_lem F v D s b p.healthy named))
            (save_manifest-Written (at_tip (with_file F v D s b) b.header.height b.hash)
              (xs ++ b ∷ []) now q))

  -- The file of a height, and the tip of the chain up to it.
  file_at :
      (d : Disk) (n k : ℕ) (bs : List Block) (h : Hash)
      → n < length bs
      → Saved F d k bs
      → (b : Block) × (read_block_file F d (k + n) ≡ found b)
        × (last_hash h (take (suc n) bs) ≡ b.hash)
  file_at d n k [] h lt w = absurd (omega arith)
  file_at d zero k (b ∷ bs) h lt (r, w) =
      (b, subst (λ i. read_block_file F d i ≡ found b) (omega arith) r, refl)
  file_at d (suc n) k (b ∷ bs) h lt (r, w) =
      let (c, e, l) = file_at d n (suc k) bs b.hash (omega arith) w in
      (c, subst (λ i. read_block_file F d i ≡ found c) (omega arith) e, l)

  Numbered-take : (n k : ℕ) (bs : List Block) → Numbered k bs → Numbered k (take n bs)
  Numbered-take zero k bs w = tt
  Numbered-take (suc n) k [] w = tt
  Numbered-take (suc n) k (b ∷ bs) (h, z, w) = (h, z, Numbered-take n (suc k) bs w)

  pub rollback_to-IsPersisted :
      (s : Store) (bs : List Block) (height : ℕ)
      → IsPersisted F s bs
      → height < length bs
      → IsPersisted F (rollback_to F s height) (take (suc height) bs)
  unfolding rollback_to
  rollback_to-IsPersisted s bs height p lt =
      let d = remove_above height (s.manifest.tip_height - height) s.disk in
      let w : Saved F d 0 (take (suc height) bs) =
        Saved-same F s.disk d 0 (take (suc height) bs)
          (λ h below.
            remove_above-lookup F height (s.manifest.tip_height - height) s.disk h
              (omega (arith, length-take (suc height) bs)))
          (Saved-take F s.disk (suc height) 0 bs p.saved) in
      let (b, e, l) = file_at s.disk height 0 bs 0 lt p.saved in
      let kept =
        remove_above-lookup F height (s.manifest.tip_height - height) s.disk height (omega arith) in
      let at : read_block_file F d height ≡ found b =
        read-same F s.disk d height kept
        ∙ subst (λ i. read_block_file F s.disk i ≡ found b) (omega arith) e in
      rw (at, rollback_to)
        (record {
          healthy = λ n.
              ap (λ f. f n) (remove_above-fails F height (s.manifest.tip_height - height) s.disk)
              ∙ p.healthy n;
          saved = w;
          numbered = Numbered-take (suc height) 0 bs p.numbered;
          tip_height = omega (arith, length-take (suc height) bs);
          tip_hash = sym l;
        })

  pub load_loop-Saved :
      (bs : List Block) (k : ℕ) (last : Hash) (s : Store) (now : ℕ)
      → Saved F s.disk k bs
      → load_loop F (length bs) k last s now ≡ (s, loaded bs)
  unfolding load_loop
  load_loop-Saved [] k last s now w = refl
  load_loop-Saved (b ∷ bs) k last s now (e, w) =
      rw (e, load_loop, load_loop-Saved bs (suc k) b.hash s now w) refl
