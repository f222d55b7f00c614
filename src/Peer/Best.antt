-- ===== src/Peer/Best.antt =====
-- The choice of `BestPeer`, whatever the order in which `range` yields the peers.
use mathlib.Core.List.{Memᴰ}
use go_sim_chain.Prelude.{
  ℕ, ◌≤◌, ◌<◌, ◌≡◌, refl, sym, subst, ◌⊎◌, inl, inr, List, [], ◌∷◌, Option, none, some, true, false,
  arith, Bool-cases,
}
use go_sim_chain.Prelude.Int.{◌<ℤ◌, ℤ-cases}
use go_sim_chain.Peer.{Info, cooling, better, consider, best_of}

-- `b` has more work than `p`; or as much and more height; or as much of both, and a round trip that is
-- known and no longer, unless that of `p` is unknown.
abbrev pub IsNoWorse : Info → Info → Type 0
IsNoWorse b p =
    (p.cum_work <ℤ b.cum_work)
    ⊎ ((p.cum_work ≡ b.cum_work)
        × ((p.tip_height < b.tip_height)
            ⊎ ((p.tip_height ≡ b.tip_height)
                × ((p.last_rtt ≡ 0) ⊎ ((0 < b.last_rtt) × (b.last_rtt ≤ p.last_rtt))))))

-- None is chosen only where all peers cool down; the chosen one does not, and is no worse than any
-- other that does not.
abbrev pub IsChosen : ℕ → List Info → Option Info → Type 0
IsChosen now ps none = (p : Info) → Memᴰ p ps → cooling p now ≡ true
IsChosen now ps (some b) =
    Memᴰ b ps
    × (cooling b now ≡ false)
    × ((p : Info) → Memᴰ p ps → cooling p now ≡ false → IsNoWorse b p)

IsNoWorse-refl : (b : Info) → IsNoWorse b b
IsNoWorse-refl b = ground arith

better-IsNoWorse : (p b : Info) → better p b ≡ true → IsNoWorse p b
unfolding better
better-IsNoWorse p b h = let c = ℤ-cases p.cum_work b.cum_work in ground (arith, c)

not-better-IsNoWorse : (p b : Info) → better p b ≡ false → IsNoWorse b p
unfolding better
not-better-IsNoWorse p b h = let c = ℤ-cases p.cum_work b.cum_work in ground (arith, c)

IsNoWorse-trans : (a b c : Info) → IsNoWorse a b → IsNoWorse b c → IsNoWorse a c
IsNoWorse-trans a b c h k = ground arith

consider-IsChosen :
    (now : ℕ) (p : Info) (ps : List Info) (best : Option Info)
    → IsChosen now ps best
    → IsChosen now (p ∷ ps) (consider now best p)
unfolding consider
consider-IsChosen now p ps none h = elim (Bool-cases (cooling p now)) [
  | inl cools ↦ rw cools (none_case cools)
  | inr ready ↦ rw ready (Memᴰ.head refl, ready, first ready)
]
  where
    none_case : cooling p now ≡ true → (q : Info) → Memᴰ q (p ∷ ps) → cooling q now ≡ true
    none_case c q (Memᴰ.head e) = subst (λ x. cooling x now ≡ true) (sym e) c
    none_case c q (Memᴰ.tail m) = h q m

    first :
        cooling p now ≡ false → (q : Info) → Memᴰ q (p ∷ ps) → cooling q now ≡ false → IsNoWorse p q
    first r q (Memᴰ.head e) c = subst (IsNoWorse p) (sym e) (IsNoWorse-refl p)
    first r q (Memᴰ.tail m) c = let f = h q m in cc
consider-IsChosen now p ps (some b) (m, ready, top) = elim (Bool-cases (cooling p now)) [
  | inl cools ↦ rw cools (Memᴰ.tail m, ready, cooled cools)
  | inr warm ↦ elim (Bool-cases (better p b)) [
    | inl up ↦ rw (warm, up) (Memᴰ.head refl, warm, above (better-IsNoWorse p b up))
    | inr down ↦ rw (warm, down) (Memᴰ.tail m, ready, below (not-better-IsNoWorse p b down))
  ]
]
  where
    cooled :
        cooling p now ≡ true → (q : Info) → Memᴰ q (p ∷ ps) → cooling q now ≡ false → IsNoWorse b q
    cooled c q (Memᴰ.head e) w = let f = subst (λ x. cooling x now ≡ false) e w in cc
    cooled c q (Memᴰ.tail n) w = top q n w

    above : IsNoWorse p b → (q : Info) → Memᴰ q (p ∷ ps) → cooling q now ≡ false → IsNoWorse p q
    above u q (Memᴰ.head e) w = subst (IsNoWorse p) (sym e) (IsNoWorse-refl p)
    above u q (Memᴰ.tail n) w = IsNoWorse-trans p b q u (top q n w)

    below : IsNoWorse b p → (q : Info) → Memᴰ q (p ∷ ps) → cooling q now ≡ false → IsNoWorse b q
    below u q (Memᴰ.head e) w = subst (IsNoWorse b) (sym e) u
    below u q (Memᴰ.tail n) w = top q n w

-- The peers that the loop has read, last first.
abbrev onto : List Info → List Info → List Info
onto [] done = done
onto (p ∷ ps) done = onto ps (p ∷ done)

mem-onto_done : (q : Info) (ps done : List Info) → Memᴰ q done → Memᴰ q (onto ps done)
mem-onto_done q [] done m = m
mem-onto_done q (p ∷ ps) done m = mem-onto_done q ps (p ∷ done) (Memᴰ.tail m)

mem-onto : (q : Info) (ps done : List Info) → Memᴰ q ps → Memᴰ q (onto ps done)
mem-onto q [] done m = elim m [ ]
mem-onto q (p ∷ ps) done (Memᴰ.head e) = mem-onto_done q ps (p ∷ done) (Memᴰ.head e)
mem-onto q (p ∷ ps) done (Memᴰ.tail m) = mem-onto q ps (p ∷ done) m

onto-mem : (q : Info) (ps done : List Info) → Memᴰ q (onto ps done) → Memᴰ q ps ⊎ Memᴰ q done
onto-mem q [] done m = inr m
onto-mem q (p ∷ ps) done m = elim (onto-mem q ps (p ∷ done) m) [
  | inl n ↦ inl (Memᴰ.tail n)
  | inr (Memᴰ.head e) ↦ inl (Memᴰ.head e)
  | inr (Memᴰ.tail n) ↦ inr n
]

best_of-onto :
    (now : ℕ) (ps done : List Info) (best : Option Info)
    → IsChosen now done best
    → IsChosen now (onto ps done) (best_of now best ps)
unfolding best_of
best_of-onto now [] done best h = h
best_of-onto now (p ∷ ps) done best h =
    best_of-onto now ps (p ∷ done) (consider now best p) (consider-IsChosen now p done best h)

IsChosen-onto :
    (now : ℕ) (ps : List Info) (best : Option Info)
    → IsChosen now (onto ps []) best
    → IsChosen now ps best
IsChosen-onto now ps none h = λ p m. h p (mem-onto p ps [] m)
IsChosen-onto now ps (some b) (m, ready, top) = (
  elim (onto-mem b ps [] m) [ inl n ↦ n | inr n ↦ elim n [ ] ],
  ready,
  λ p n. top p (mem-onto p ps [] n),
)

-- `BestPeer` chooses none only where every peer cools down; otherwise it chooses one of the peers
-- that do not, and none of the others beats it. It holds for each order of the peers.
pub best_of-IsChosen : (now : ℕ) (ps : List Info) → IsChosen now ps (best_of now none ps)
best_of-IsChosen now ps =
    IsChosen-onto now ps (best_of now none ps) (best_of-onto now ps [] none (λ p m. elim m [ ]))
