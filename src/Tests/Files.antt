-- ===== src/Tests/Files.antt =====
-- The theorems on the store at a small one.
use go_sim_chain.Prelude.{
  ℕ, take, ◌++◌, List, suc, ◌≡◌, refl, [], ◌∷◌, none, some, false, length, arith, nat_eq,
}
use go_sim_chain.Map
use go_sim_chain.Types.{Block, new_genesis_block}
use go_sim_chain.Crypto.{hash_header_nonce, hash_transactions, root_preimage, joined, le_bytes}
use go_sim_chain.Chain.State.{Blockchain, block_by_hash}
use go_sim_chain.Store.Disk.{
  Disk, Store, read_block_file, named_genesis, open_store, loaded, load_main_chain,
}
use go_sim_chain.Store.Change.{apply_tip_change}
use go_sim_chain.Store.Saved.{Saved}
use go_sim_chain.Store.Persisted.{IsPersisted, Written}
use go_sim_chain.Store.Restart.{IsNext, apply_tip_change-IsNext}
use go_sim_chain.Store.Begin.{IsCutOff, load_main_chain-missing, open_store-Written}
use go_sim_chain.Chain.State.{Reorg, ok}
use go_sim_chain.Chain.Walk.{compute_reorg}
use go_sim_chain.Chain.Ancestry.{At}
use go_sim_chain.Store.Reorged.{apply_tip_change-reorg}
use go_sim_chain.Tests.Blocks.{
  digests, start, above, first_header, forked, forked-IsValid, stored, found_seven, found_eight,
  forked_zero,
}
use go_sim_chain.Tests.Json.{put_block, format, format-IsFormat, format-Legible}

abbrev empty_disk : Disk
empty_disk = record { manifest = none; blocks = []; calls = 0; fails = λ n. false }

abbrev genesis : Block
unfolding new_genesis_block
genesis = record new_genesis_block { header = first_header; hash = 19683 }

genesis_named : named_genesis format digests new_genesis_block ≡ some genesis
unfolding named_genesis new_genesis_block hash_header_nonce hash_transactions root_preimage joined
    le_bytes
genesis_named = refl

abbrev opening :
    Written format format-IsFormat digests
      (open_store format digests empty_disk 0 new_genesis_block 1)
      (genesis ∷ [])
unfolding new_genesis_block
opening =
    open_store-Written format format-IsFormat digests empty_disk 0 new_genesis_block genesis 1 refl
      (λ n. refl) genesis_named refl refl (format-Legible genesis)

abbrev child : Block
child = record (above 19683 7) { hash = 77 }

abbrev tree : Blockchain
tree = record start { blocks = (77, child) ∷ [] }

child-IsNext : IsNext format-IsFormat tree (genesis ∷ []) 77 none (genesis ∷ child ∷ [])
unfolding block_by_hash Map.lookup
child-IsNext = (child, refl, refl, (refl, refl, tt), format-Legible child, refl)

apply_tip_change-IsNext_example :
    (t : Store) × (apply_tip_change format digests tree opening.0 77 none 2 ≡ (t, none))
    × IsPersisted format t (genesis ∷ child ∷ [])
    × (open_store format digests t.disk t.manifest.difficulty new_genesis_block 3 ≡ (t, none))
    × (load_main_chain format t 3 ≡ (t, loaded (genesis ∷ child ∷ [])))
apply_tip_change-IsNext_example =
    apply_tip_change-IsNext format format-IsFormat digests tree opening.0 (genesis ∷ [])
      (genesis ∷ child ∷ []) 77 none new_genesis_block 2 3 opening.2 child-IsNext

-- A store that counts five blocks more than it has files.
abbrev torn : Store
unfolding new_genesis_block
torn = record {
  disk = record empty_disk { blocks = (0, put_block genesis) ∷ [] };
  manifest = record { version = 1; difficulty = 0; tip_height = 5; tip_hash = 9; updated_at = 1 };
}

torn-Saved : Saved format torn.disk 0 (genesis ∷ [])
unfolding read_block_file Map.lookup new_genesis_block genesis torn
torn-Saved = (refl, tt)

load_main_chain-missing_example : IsCutOff 0 0 (genesis ∷ []) (load_main_chain format torn 4)
unfolding read_block_file Map.lookup torn
load_main_chain-missing_example =
    load_main_chain-missing format (genesis ∷ []) torn 4 torn-Saved (omega arith) (omega arith) refl

seven-IsNext :
    IsNext format-IsFormat forked (genesis ∷ []) 19705 none (genesis ∷ stored 7 19705 ∷ [])
unfolding block_by_hash
seven-IsNext =
    (stored 7 19705, found_seven, refl, (refl, refl, tt), format-Legible (stored 7 19705), refl)

abbrev sevenfold :
    (t : Store) × (apply_tip_change format digests forked opening.0 19705 none 2 ≡ (t, none))
    × IsPersisted format t (genesis ∷ stored 7 19705 ∷ [])
    × (open_store format digests t.disk t.manifest.difficulty new_genesis_block 3 ≡ (t, none))
    × (load_main_chain format t 3 ≡ (t, loaded (genesis ∷ stored 7 19705 ∷ [])))
sevenfold =
    apply_tip_change-IsNext format format-IsFormat digests forked opening.0 (genesis ∷ [])
      (genesis ∷ stored 7 19705 ∷ []) 19705 none new_genesis_block 2 3 opening.2 seven-IsNext

apply_tip_change-reorg_example :
    (r : Reorg) × (compute_reorg forked 19705 19708 ≡ ok (some r))
    × (t : Store) × (a : ℕ) × (cs : List Block) × (apply_tip_change format digests forked
          sevenfold.0 19708
          (some r)
          4
        ≡ (t, none))
    × At forked a r.common_ancestor
    × (cs ≡ take (suc a) (genesis ∷ stored 7 19705 ∷ []) ++ r.added)
    × (length cs ≡ 2)
    × (load_main_chain format t 5 ≡ (t, loaded cs))
apply_tip_change-reorg_example =
    apply_tip_change-reorg digests forked forked-IsValid forked_zero format format-IsFormat 19705
      19708 (stored 7 19705) (stored 8 19708) sevenfold.0 (genesis ∷ stored 7 19705 ∷ []) 4 5
      found_seven found_eight (λ e. omega arith) (λ h b e. format-Legible b) sevenfold.2 refl
