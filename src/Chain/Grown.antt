-- ===== src/Chain/Grown.antt =====
-- A block that `validate_block` accepts, once stored, keeps the tree valid, whether the tip moves or not.
use go_sim_chain.Prelude.{
  ℕ, ◌+◌, ◌≤◌, ◌<◌, ◌^◌, ◌%◌, ◌≡◌, refl, sym, ◌∙◌, ap, subst, ◌⊎◌, inl, inr, none, some, true,
  false, nat_eq, arith, Bool-cases, ◌==◌,
}
use go_sim_chain.Prelude.Int.{ltb_ℤ}
use go_sim_chain.Map
use go_sim_chain.Types.{Hash, Block}
use go_sim_chain.Crypto.{
  Digests, hash_header_nonce, hash_transactions, meets_difficulty, work_for_difficulty,
}
use go_sim_chain.Chain.State.{Blockchain}
use go_sim_chain.Chain.Add.{validate_work, validate_block, store_block}
use go_sim_chain.Chain.Valid.{IsStored, IsAbsent, IsValid, Extends, Advances}

pub IsStored-mono :
    (D : Digests) (bc later : Blockchain) (h : Hash) (b : Block)
    → Extends bc later
    → IsStored D bc h b
    → IsStored D later h b
IsStored-mono D bc later h b x s = record {
  named = s.named;
  recorded = x.height_kept h _ s.recorded;
  small = s.small;
  work = s.work;
  weighed = x.work_kept h _ s.weighed;
  origin = elim s.origin [
    | inl g ↦ inl (record { here = g.here ∙ sym x.same_genesis; height_zero = g.height_zero })
    | inr c ↦ inr (record {
      above = c.above;
      found = x.blocks_kept _ _ c.found;
      link = x.parent_kept _ _ c.link;
      height_step = c.height_step;
      difficulty_same = c.difficulty_same ∙ sym x.same_difficulty;
      time_step = c.time_step;
      root = c.root;
      worked = c.worked;
      pow = rw x.same_difficulty c.pow;
      before = c.before;
      before_found = x.work_kept _ _ c.before_found;
      work_step = rw x.same_difficulty (x.work_kept _ _ c.work_step);
    })
  ];
}

-- What `validate_block` has checked when it returns nil.
pub record IsAccepted (D : Digests) (bc : Blockchain) (b parent : Block) (h : Hash) : Type 0 where
  pub difficulty_same : b.header.difficulty ≡ bc.difficulty
  pub height_step : b.header.height ≡ (parent.header.height + 1) % 2 ^ 64
  pub time_step : ltb_ℤ b.header.timestamp parent.header.timestamp ≡ false
  pub root : hash_transactions D b.txs ≡ b.header.tx_root
  pub worked : hash_header_nonce D b.header b.nonce ≡ some h
  pub pow : meets_difficulty h bc.difficulty ≡ true

validate_work-none :
    (D : Digests) (bc : Blockchain) (b : Block) (h : Hash)
    → validate_work D bc b h ≡ none
    → (hash_header_nonce D b.header b.nonce ≡ some h) × (meets_difficulty h bc.difficulty ≡ true)
unfolding validate_work
validate_work-none D bc b h e = ground arith

pub validate_block-IsAccepted :
    (D : Digests) (bc : Blockchain) (b parent : Block) (h : Hash)
    → validate_block D bc b parent h ≡ none
    → IsAccepted D bc b parent h
unfolding validate_block
validate_block-IsAccepted D bc b parent h e = ground (arith, validate_work-none D bc b h)

pub lookup-insert_new {ℓ} :
    {V : Type ℓ} (h k : Hash) (v w : V) (m : Map.Map Hash V)
    → Map.lookup h m ≡ none
    → Map.lookup k m ≡ some w
    → Map.lookup k (Map.insert h v m) ≡ some w
lookup-insert_new h k v w m new old = ground (arith, Map.lookup-insert h k v m)

-- The chain that `attach` has before it chooses the tip.
abbrev pub grown : Blockchain → Hash → Block → ℕ → Blockchain
grown bc h b work = record (store_block bc h b) { cum_work = Map.insert h work bc.cum_work }

module _ (D : Digests) (bc : Blockchain) (h : Hash) (b : Block) (work : ℕ) where
  pub grown-Extends : Map.lookup h bc.blocks ≡ none → IsAbsent bc h → Extends bc (grown bc h b work)
  unfolding store_block
  grown-Extends new a = record {
    same_genesis = refl;
    same_difficulty = refl;
    blocks_kept = λ k v e. lookup-insert_new h k _ v bc.blocks new e;
    parent_kept = λ k v e. lookup-insert_new h k _ v bc.parent a.no_parent e;
    height_kept = λ k v e. lookup-insert_new h k _ v bc.height a.no_height e;
    work_kept = λ k v e. lookup-insert_new h k _ v bc.cum_work a.no_work e;
  }

  pub grown_child :
      (above : Block) (before : ℕ)
      → IsStored D bc b.header.prev_hash above
      → Map.lookup h bc.blocks ≡ none
      → IsAbsent bc h
      → Map.lookup b.header.prev_hash bc.blocks ≡ some above
      → Map.lookup b.header.prev_hash bc.cum_work ≡ some before
      → work ≡ before + work_for_difficulty b.header.difficulty
      → 0 < b.header.height
      → IsAccepted D bc b above h
      → IsStored D (grown bc h b work) h (record b { hash = h })
  unfolding store_block
  grown_child above before up new a found before_found sum above_genesis v =
      let x = grown-Extends new a in
      record {
        named = refl;
        recorded = Map.lookup-insert_self h _ bc.height;
        small = ground (arith, v.height_step);
        work = work;
        weighed = Map.lookup-insert_self h _ bc.cum_work;
        origin = inr (record {
          above = above;
          found = x.blocks_kept _ _ found;
          link = Map.lookup-insert_self h _ bc.parent;
          height_step = omega (arith, v.height_step, up.small);
          difficulty_same = v.difficulty_same;
          time_step = v.time_step;
          root = v.root;
          worked = v.worked;
          pow = v.pow;
          before = before;
          before_found = x.work_kept _ _ before_found;
          work_step =
              Map.lookup-insert_self h _ bc.cum_work
              ∙ ap some (sum ∙ ap (λ d. before + work_for_difficulty d) v.difficulty_same);
        });
      }

  grown_stored :
      IsValid D bc
      → Map.lookup h bc.blocks ≡ none
      → IsStored D (grown bc h b work) h (record b { hash = h })
      → (k : Hash) (c : Block) → Map.lookup k (grown bc h b work).blocks ≡ some c
      → IsStored D (grown bc h b work) k c
  unfolding store_block
  grown_stored v new s k c e = elim (Bool-cases (h == k)) [
    | inl same ↦
        let p : h ≡ k = ground arith in
        let q : record b { hash = h } ≡ c =
          ground (arith, Map.lookup-insert h k (record b { hash = h }) bc.blocks) in
        subst (λ x. IsStored D (grown bc h b work) k x) q
          (subst (λ x. IsStored D (grown bc h b work) x (record b { hash = h })) p s)
    | inr other ↦
        IsStored-mono D bc (grown bc h b work) k c (grown-Extends new (v.absent h new))
          (v.stored k c (ground (arith, Map.lookup-insert h k (record b { hash = h }) bc.blocks)))
  ]

  grown-IsAbsent :
      IsValid D bc
      → (k : Hash) → Map.lookup k (grown bc h b work).blocks ≡ none
      → IsAbsent (grown bc h b work) k
  unfolding store_block
  grown-IsAbsent v k e =
      let old : (h == k) ≡ false =
        ground (arith, Map.lookup-insert h k (record b { hash = h }) bc.blocks) in
      let a : IsAbsent bc k =
        v.absent k (ground (arith, Map.lookup-insert h k (record b { hash = h }) bc.blocks)) in
      record {
        no_parent = ground (arith, Map.lookup-insert h k b.header.prev_hash bc.parent, a.no_parent);
        no_height = ground (arith, Map.lookup-insert h k b.header.height bc.height, a.no_height);
        no_work = ground (arith, Map.lookup-insert h k work bc.cum_work, a.no_work);
      }

  grown_work :
      (k : Hash) (w : ℕ)
      → Map.lookup k (grown bc h b work).cum_work ≡ some w
      → (w ≡ work) ⊎ (Map.lookup k bc.cum_work ≡ some w)
  unfolding store_block
  grown_work k w e = ground (arith, Map.lookup-insert h k work bc.cum_work)

  -- The tip stays where its work is not beaten.
  pub grown-Advances :
      (v : IsValid D bc)
      → Map.lookup h bc.blocks ≡ none
      → IsStored D (grown bc h b work) h (record b { hash = h })
      → work ≤ v.tip_work
      → Advances D bc v.tip_work (grown bc h b work)
  unfolding store_block
  grown-Advances v new s light =
      let x = grown-Extends new (v.absent h new) in
      record {
        extends = x;
        moved = inl (refl, refl);
        valid = record {
          stored = grown_stored v new s;
          absent = grown-IsAbsent v;
          genesis_at = (v.genesis_at.0, x.blocks_kept _ _ v.genesis_at.1, v.genesis_at.2);
          tip_block = v.tip_block;
          tip_found = x.blocks_kept _ _ v.tip_found;
          tip_work = v.tip_work;
          tip_weighed = x.work_kept _ _ v.tip_weighed;
          heaviest = λ k w e. elim (grown_work k w e) [
            | inl p ↦ rw p light
            | inr old ↦ v.heaviest k w old
          ];
        };
      }

  -- The new block is the tip where it has more work.
  pub grown_tip-Advances :
      (v : IsValid D bc)
      → Map.lookup h bc.blocks ≡ none
      → IsStored D (grown bc h b work) h (record b { hash = h })
      → v.tip_work < work
      → Advances D bc v.tip_work (record (grown bc h b work) { tip = h })
  unfolding store_block
  grown_tip-Advances v new s heavy = record {
    extends = same;
    moved = inr heavy;
    valid = record {
      stored = λ k c e. moved k c (grown_stored v new s k c e);
      absent = λ k e.
          let a = grown-IsAbsent v k e in
          record { no_parent = a.no_parent; no_height = a.no_height; no_work = a.no_work };
      genesis_at = (v.genesis_at.0, x.blocks_kept _ _ v.genesis_at.1, v.genesis_at.2);
      tip_block = record b { hash = h };
      tip_found = Map.lookup-insert_self h _ bc.blocks;
      tip_work = work;
      tip_weighed = Map.lookup-insert_self h _ bc.cum_work;
      heaviest = λ k w e. elim (grown_work k w e) [
        | inl p ↦ omega arith
        | inr old ↦ omega (arith, v.heaviest k w old)
      ];
    };
  }
    where
      x : Extends bc (grown bc h b work)
      x = grown-Extends new (v.absent h new)

      same : Extends bc (record (grown bc h b work) { tip = h })
      same = record {
        same_genesis = refl;
        same_difficulty = refl;
        blocks_kept = x.blocks_kept;
        parent_kept = x.parent_kept;
        height_kept = x.height_kept;
        work_kept = x.work_kept;
      }

      moved :
          (k : Hash) (c : Block)
          → IsStored D (grown bc h b work) k c
          → IsStored D (record (grown bc h b work) { tip = h }) k c
      moved k c = IsStored-mono D _ _ k c (record {
        same_genesis = refl;
        same_difficulty = refl;
        blocks_kept = λ _ _ e. e;
        parent_kept = λ _ _ e. e;
        height_kept = λ _ _ e. e;
        work_kept = λ _ _ e. e;
      })
