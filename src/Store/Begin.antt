-- ===== src/Store/Begin.antt =====
-- A new store, and one that lost a file.
use go_sim_chain.Prelude.{
  ℕ, zero, suc, ◌+◌, ◌-◌, ◌≤◌, ◌<◌, ◌≡◌, refl, sym, ◌∙◌, ap, subst, List, [], ◌∷◌, Option, none,
  some, false, arith, length, nat_eq,
}
use go_sim_chain.Types.{Hash, Block, is_zero}
use go_sim_chain.Crypto.{Digests}
use go_sim_chain.Store.Disk.{
  Manifest, Format, Disk, Store, StoreError, missing, found, read_block_file, write_file,
  save_manifest, named_genesis, init_new, open_store, Loaded, loaded, with_block, cut_off,
  load_loop, load_main_chain,
}
use go_sim_chain.Store.Saved.{
  IsFormat, Legible, Saved, IsHealthy, with_file, read-with_file, write_block_file_lem,
}
use go_sim_chain.Store.Persisted.{last_hash, IsPersisted, Written, save_manifest-Written}

-- What `LoadMainChain` leaves where the chain breaks off after the blocks `bs` from height `k` on, above
-- the block `last`: it read these blocks, and the manifest names the last of them.
abbrev pub IsCutOff : ℕ → Hash → List Block → Store × Loaded → Type 0
IsCutOff k last bs (s, r) =
    (r ≡ loaded bs)
    × (suc s.manifest.tip_height ≡ k + length bs)
    × (s.manifest.tip_hash ≡ last_hash last bs)

module _ (F : Format) where
  save_manifest-tip :
      (s : Store) (now : ℕ)
      → ((save_manifest F s now).0.manifest.tip_height ≡ s.manifest.tip_height)
        × ((save_manifest F s now).0.manifest.tip_hash ≡ s.manifest.tip_hash)
  unfolding save_manifest write_file
  save_manifest-tip s now = ground arith

  cut_off_lem :
      (k : ℕ) (last : Hash) (s : Store) (now : ℕ)
      → 0 < k
      → IsCutOff k last [] (cut_off F s k last now)
  unfolding cut_off
  cut_off_lem zero last s now lt = absurd (omega arith)
  cut_off_lem (suc k) last s now lt =
      let (height, hash) =
        save_manifest-tip
          (record s { manifest = record (s.manifest) { tip_height = k; tip_hash = last } }) now in
      (refl, omega (arith, height), hash)

  -- Where a file of the main chain is missing and all below it are there.
  load_loop-missing :
      (bs : List Block) (k : ℕ) (last : Hash) (s : Store) (now n : ℕ)
      → Saved F s.disk k bs
      → 0 < k + length bs
      → read_block_file F s.disk (k + length bs) ≡ missing
      → IsCutOff k last bs (load_loop F (length bs + suc n) k last s now)
  unfolding load_loop
  load_loop-missing [] k last s now n w some_left gone =
      let e : read_block_file F s.disk k ≡ missing =
        subst (λ i. read_block_file F s.disk i ≡ missing) (omega arith) gone in
      let rounds : suc n ≡ 0 + suc n = omega arith in
      subst (λ r. IsCutOff k last [] (load_loop F r k last s now)) rounds
        (rw (e, load_loop) (cut_off_lem k last s now (omega arith)))
  load_loop-missing (b ∷ bs) k last s now n (e, w) some_left gone =
      let rounds : suc (length bs + suc n) ≡ suc (length bs) + suc n = omega arith in
      let (read, height, hash) =
        load_loop-missing bs (suc k) b.hash s now n w (omega arith)
          (subst (λ i. read_block_file F s.disk i ≡ missing) (omega arith) gone) in
      subst (λ r. IsCutOff k last (b ∷ bs) (load_loop F r k last s now)) rounds
        (rw (e, load_loop) (ap (with_block b) read, height ∙ omega arith, hash))

  -- Where the block files from height 0 on are there up to some height above 0 that the manifest counts
  -- to the chain, and the file of that height is missing, `LoadMainChain` gives the blocks below the gap
  -- and makes the manifest name the last of them, with its height and its hash, whether or not the
  -- manifest can be written to disk.
  pub load_main_chain-missing :
      (bs : List Block) (s : Store) (now : ℕ)
      → Saved F s.disk 0 bs
      → 0 < length bs
      → length bs ≤ s.manifest.tip_height
      → read_block_file F s.disk (length bs) ≡ missing
      → IsCutOff 0 0 bs (load_main_chain F s now)
  unfolding load_main_chain
  load_main_chain-missing bs s now w some_left short gone =
      let rounds : length bs + suc (s.manifest.tip_height - length bs) ≡ suc s.manifest.tip_height =
        omega arith in
      subst (λ n. IsCutOff 0 0 bs (load_loop F n 0 0 s now)) rounds
        (load_loop-missing bs 0 0 s now (s.manifest.tip_height - length bs) w (omega arith)
          (subst (λ i. read_block_file F s.disk i ≡ missing) (omega arith) gone))

module _ (F : Format) (v : IsFormat F) (D : Digests) where
  -- The first start: the store holds the genesis block alone.
  pub open_store-Written :
      (d : Disk) (difficulty : ℕ) (genesis g : Block) (now : ℕ)
      → d.manifest ≡ none
      → IsHealthy d
      → named_genesis F D genesis ≡ some g
      → g.header.height ≡ 0
      → is_zero g.hash ≡ false
      → Legible v g
      → Written F v D (open_store F D d difficulty genesis now) (g ∷ [])
  unfolding open_store init_new
  open_store-Written d difficulty genesis g now fresh healthy name low named legible =
      let blank : Manifest = record {
        version = 0;
        difficulty = 0;
        tip_height = 0;
        tip_hash = 0;
        updated_at = 0;
      } in
      let s : Store = record { disk = d; manifest = blank } in
      let first : Manifest = record {
        version = 1;
        difficulty = difficulty;
        tip_height = 0;
        tip_hash = g.hash;
        updated_at = now;
      } in
      let t : Store = record { disk = (with_file F v D s g).disk; manifest = first } in
      let p : IsPersisted F t (g ∷ []) = record {
        healthy = healthy;
        saved = (
          subst (λ h. read_block_file F t.disk h ≡ found g) low (read-with_file F v D s g legible),
          tt,
        );
        numbered = (low, named, tt);
        tip_height = refl;
        tip_hash = refl;
      } in
      rw (fresh, open_store, name, init_new)
        (subst
          (λ (r : Store × Option StoreError).
            Written F v D
              (elim r.1 [
                | some e ↦ (r.0, some e)
                | none ↦ save_manifest F (record (r.0) { manifest = first }) now
              ])
              (g ∷ []))
          (sym (write_block_file_lem F v D s g healthy named))
          (save_manifest-Written F v D t (g ∷ []) now p))
