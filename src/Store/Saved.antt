-- ===== src/Store/Saved.antt =====
-- What the files hold, and how writes and removals change that.
use go_sim_chain.Prelude.{
  ℕ, zero, suc, ◌+◌, ◌≤◌, ◌<◌, ◌≡◌, ◌≢◌, refl, sym, ◌∙◌, subst, List, [], ◌∷◌, ◌++◌, none, some,
  false, arith, length, take, nat_eq,
}
use go_sim_chain.Map
use go_sim_chain.Map.{Map}
use go_sim_chain.Types.{Block, is_zero}
use go_sim_chain.Crypto.{Digests}
use go_sim_chain.Store.Disk.{
  Bytes, Manifest, Format, Disk, Store, write_file, save_manifest, found, read_block_file,
  encode_to_file, write_block_file,
}
use go_sim_chain.Store.Change.{remove_above}

-- JSON can write each value, and what it wrote of a manifest, which has numbers and a hash only, reads
-- as the same manifest.
pub record IsFormat (F : Format) : Type 0 where
  pub block_text : Block → Bytes
  pub manifest_text : Manifest → Bytes
  pub encodes_block : (b : Block) → F.encode_block b ≡ some (block_text b)
  pub encodes_manifest : (m : Manifest) → F.encode_manifest m ≡ some (manifest_text m)
  pub decodes_manifest : (m : Manifest) → F.decode_manifest (manifest_text m) ≡ some m

-- JSON gives the block back. It does for a block whose strings are valid UTF-8.
abbrev pub Legible : {F : Format} → IsFormat F → Block → Type 0
Legible {F} v b = F.decode_block (v.block_text b) ≡ some b

-- Blocks of the heights from `k` on, each with its hash.
abbrev pub Numbered : ℕ → List Block → Type 0
Numbered k [] = Unit {0}
Numbered k (b ∷ bs) = (b.header.height ≡ k) × (is_zero b.hash ≡ false) × Numbered (suc k) bs

-- They are the files of these heights.
abbrev pub Saved : Format → Disk → ℕ → List Block → Type 0
Saved F d k [] = Unit {0}
Saved F d k (b ∷ bs) = (read_block_file F d k ≡ found b) × Saved F d (suc k) bs

-- No write fails.
abbrev pub IsHealthy : Disk → Type 0
IsHealthy d = (n : ℕ) → d.fails n ≡ false

pub Numbered-append :
    (k : ℕ) (bs cs : List Block)
    → Numbered k bs
    → Numbered (k + length bs) cs
    → Numbered k (bs ++ cs)
Numbered-append k [] cs v w = subst (λ n. Numbered n cs) (omega arith) w
Numbered-append k (b ∷ bs) cs (h, z, v) w =
    (h, z, Numbered-append (suc k) bs cs v (subst (λ n. Numbered n cs) (omega arith) w))

module _ (F : Format) where
  pub Saved-append :
      (d : Disk) (k : ℕ) (bs cs : List Block)
      → Saved F d k bs
      → Saved F d (k + length bs) cs
      → Saved F d k (bs ++ cs)
  Saved-append d k [] cs v w = subst (λ n. Saved F d n cs) (omega arith) w
  Saved-append d k (b ∷ bs) cs (r, v) w =
      (r, Saved-append d (suc k) bs cs v (subst (λ n. Saved F d n cs) (omega arith) w))

  pub Saved-take : (d : Disk) (n k : ℕ) (bs : List Block) → Saved F d k bs → Saved F d k (take n bs)
  Saved-take d zero k bs v = tt
  Saved-take d (suc n) k [] v = tt
  Saved-take d (suc n) k (b ∷ bs) (r, v) = (r, Saved-take d n (suc k) bs v)

  pub read-same :
      (d d' : Disk) (h : ℕ)
      → Map.lookup h d'.blocks ≡ Map.lookup h d.blocks
      → read_block_file F d' h ≡ read_block_file F d h
  unfolding read_block_file
  read-same d d' h same = rw (same, read_block_file) refl

  -- Files of other heights change.
  pub Saved-same :
      (d d' : Disk) (k : ℕ) (bs : List Block)
      → ((h : ℕ) → h < k + length bs → Map.lookup h d'.blocks ≡ Map.lookup h d.blocks)
      → Saved F d k bs
      → Saved F d' k bs
  Saved-same d d' k [] same v = tt
  Saved-same d d' k (b ∷ bs) same (r, v) = (
    read-same d d' k (same k (omega arith)) ∙ r,
    Saved-same d d' (suc k) bs (λ h lt. same h (omega arith)) v,
  )

  -- A removal may fail, so a file above the chain may stay.
  write_file-delete :
      (d : Disk) (h k : ℕ)
      → h ≢ k
      → Map.lookup k (write_file d (λ d. record d { blocks = Map.delete h d.blocks })).0.blocks
        ≡ Map.lookup k d.blocks
  unfolding write_file
  write_file-delete d h k ne = ground (arith, Map.lookup-delete_ne h k d.blocks (λ e. ne (sym e)))

  pub remove_above-lookup :
      (height n : ℕ) (d : Disk) (k : ℕ)
      → k ≤ height
      → Map.lookup k (remove_above height n d).blocks ≡ Map.lookup k d.blocks
  unfolding remove_above
  remove_above-lookup height zero d k le = refl
  remove_above-lookup height (suc n) d k le =
      remove_above-lookup height n _ k le
      ∙ write_file-delete d (height + suc n) k (λ e. absurd (omega arith))

  write_file-fails :
      (d : Disk) (f : Disk → Disk)
      → (f (record d { calls = suc d.calls })).fails ≡ d.fails
      → (write_file d f).0.fails ≡ d.fails
  unfolding write_file
  write_file-fails d f e = ground (arith, e)

  pub remove_above-fails : (height n : ℕ) (d : Disk) → (remove_above height n d).fails ≡ d.fails
  unfolding remove_above
  remove_above-fails height zero d = refl
  remove_above-fails height (suc n) d =
      remove_above-fails height n _
      ∙ write_file-fails d (λ e. record e { blocks = Map.delete (height + suc n) e.blocks }) refl

  module _ (v : IsFormat F) (D : Digests) where
    -- The store after a block was written.
    abbrev pub with_file : Store → Block → Store
    with_file s b = record s {
      disk = record (s.disk) {
        calls = suc s.disk.calls;
        blocks = Map.insert b.header.height (v.block_text b) s.disk.blocks;
      };
    }

    pub write_block_file_lem :
        (s : Store) (b : Block)
        → IsHealthy s.disk
        → is_zero b.hash ≡ false
        → write_block_file F D s b ≡ (with_file s b, none)
    unfolding write_block_file encode_to_file write_file
    write_block_file_lem s b healthy named =
        rw
          (
            named,
            write_block_file,
            v.encodes_block b,
            encode_to_file,
            healthy s.disk.calls,
            write_file,
          )
          refl

    pub read-with_file :
        (s : Store) (b : Block)
        → Legible v b
        → read_block_file F (with_file s b).disk b.header.height ≡ found b
    unfolding read_block_file
    read-with_file s b legible =
        rw (Map.lookup-insert_self b.header.height (v.block_text b) s.disk.blocks, read_block_file)
          (rw legible refl)

    -- The store after its manifest was written.
    abbrev pub with_manifest : Store → ℕ → Store
    with_manifest s now = record {
      manifest = record (s.manifest) { updated_at = now };
      disk = record (s.disk) {
        calls = suc s.disk.calls;
        manifest = some (v.manifest_text (record (s.manifest) { updated_at = now }));
      };
    }

    pub save_manifest_lem :
        (s : Store) (now : ℕ)
        → IsHealthy s.disk
        → save_manifest F s now ≡ (with_manifest s now, none)
    unfolding save_manifest write_file
    save_manifest_lem s now healthy =
        rw
          (
            v.encodes_manifest (record (s.manifest) { updated_at = now }),
            save_manifest,
            healthy s.disk.calls,
            write_file,
          )
          refl
