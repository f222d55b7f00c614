-- ===== src/Chain/Start.antt =====
-- `NewBlockchain` starts from a valid tree, and the main chain leads from genesis to the tip.
use go_sim_chain.Prelude.{
  ℕ, ◌≡◌, refl, subst, ◌⊎◌, inl, inr, [], some, none, false, nat_eq, arith, Option-cases, ◌==◌,
}
use go_sim_chain.Map
use go_sim_chain.Map.{Map}
use go_sim_chain.Types.{Hash, Block, BlockHeader}
use go_sim_chain.Crypto.{Digests, hash_header_nonce, hash_transactions}
use go_sim_chain.Chain.State.{Blockchain, ok, err, new_blockchain, marshal_failed}
use go_sim_chain.Chain.Valid.{IsStored, IsAbsent, IsValid}

lookup_nil {ℓ} : {V : Type ℓ} (k : Hash) → Map.lookup {V = V} k [] ≡ none
unfolding Map.lookup
lookup_nil k = refl

lookup_single {ℓ} :
    {V : Type ℓ} (h k : Hash) (v w : V)
    → Map.lookup k (Map.insert h v []) ≡ some w
    → (h ≡ k) × (v ≡ w)
unfolding Map.lookup
lookup_single h k v w e = ground (arith, Map.lookup-insert h k v [])

-- The chain that `NewBlockchain` returns.
abbrev pub only_genesis : Block → BlockHeader → Hash → ℕ → Blockchain
only_genesis g header h difficulty = record {
  difficulty = difficulty;
  blocks = Map.insert h (record g { header = header; hash = h }) [];
  parent = Map.insert h 0 [];
  cum_work = Map.insert h 0 [];
  height = Map.insert h 0 [];
  tip = h;
  genesis = h;
  orphans = [];
}

module _ (D : Digests) (g : Block) (header : BlockHeader) (h difficulty : ℕ) where
  only_genesis_stored :
      header.height ≡ 0
      → IsStored D (only_genesis g header h difficulty) h (record g { header = header; hash = h })
  only_genesis_stored low = record {
    named = refl;
    recorded = rw low (Map.lookup-insert_self h 0 []);
    small = omega (arith, low);
    work = 0;
    weighed = Map.lookup-insert_self h 0 [];
    origin = inl (record { here = refl; height_zero = low });
  }

  only_genesis-IsAbsent :
      (k : Hash)
      → Map.lookup k (only_genesis g header h difficulty).blocks ≡ none
      → IsAbsent (only_genesis g header h difficulty) k
  only_genesis-IsAbsent k e =
      let away : (h == k) ≡ false =
        ground (arith, Map.lookup-insert h k (record g { header = header; hash = h }) []) in
      record {
        no_parent = rw (Map.lookup-insert {V = ℕ} h k 0 [], away) nothing;
        no_height = rw (Map.lookup-insert {V = ℕ} h k 0 [], away) nothing;
        no_work = rw (Map.lookup-insert {V = ℕ} h k 0 [], away) nothing;
      }
    where
      nothing : Map.lookup {V = ℕ} k [] ≡ none
      nothing = lookup_nil k

  pub only_genesis-IsValid : header.height ≡ 0 → IsValid D (only_genesis g header h difficulty)
  only_genesis-IsValid low = record {
    stored = λ k b e.
        let (p, q) = lookup_single h k _ b e in
        subst (λ c. IsStored D (only_genesis g header h difficulty) k c) q
          (subst
            (λ x.
              IsStored D (only_genesis g header h difficulty) x
                (record g { header = header; hash = h }))
            p (only_genesis_stored low));
    absent = only_genesis-IsAbsent;
    genesis_at = (record g { header = header; hash = h }, Map.lookup-insert_self h _ [], low);
    tip_block = record g { header = header; hash = h };
    tip_found = Map.lookup-insert_self h _ [];
    tip_work = 0;
    tip_weighed = Map.lookup-insert_self h 0 [];
    heaviest = λ k w e. omega (arith, (lookup_single h k 0 w e).1);
  }

-- The header of a block with the root of its transactions.
abbrev pub rooted : Digests → Block → BlockHeader
rooted D g = record (g.header) { tx_root = hash_transactions D g.txs }

hash_header_nonce-none :
    (D : Digests) (header : BlockHeader) (nonce : ℕ)
    → hash_header_nonce D header nonce ≡ none
    → D.marshal_header header ≡ none
unfolding hash_header_nonce
hash_header_nonce-none D header nonce e = ground (arith, e)

-- From a genesis block of height 0 `NewBlockchain` fails exactly where its header, with the root of its
-- transactions, has no JSON; otherwise it starts a valid tree with the genesis block, named by the hash
-- of this header and its nonce, as its tip, the difficulty that was given, and no orphans.
pub new_blockchain-IsValid :
    (D : Digests) (g : Block) (difficulty : ℕ)
    → g.header.height ≡ 0
    → ((new_blockchain D (some g) difficulty ≡ err marshal_failed)
        × (D.marshal_header (rooted D g) ≡ none))
      ⊎ ((bc : Blockchain) × (new_blockchain D (some g) difficulty ≡ ok bc)
          × IsValid D bc
          × (hash_header_nonce D (rooted D g) g.nonce ≡ some bc.tip)
          × (Map.lookup bc.tip bc.blocks ≡ some (record g { header = rooted D g; hash = bc.tip }))
          × (bc.tip ≡ bc.genesis)
          × (bc.difficulty ≡ difficulty)
          × (bc.orphans ≡ []))
unfolding new_blockchain
new_blockchain-IsValid D g difficulty low =
    let header = rooted D g in
    elim (Option-cases (hash_header_nonce D header g.nonce)) [
      | inl failed ↦ inl (rw failed, hash_header_nonce-none D header g.nonce failed)
      | inr (h, e) ↦ inr (
        only_genesis g header h difficulty,
        rw e,
        only_genesis-IsValid D g header h difficulty low,
        e,
        Map.lookup-insert_self h (record g { header = header; hash = h }) [],
        refl,
        refl,
        refl,
      )
    ]
