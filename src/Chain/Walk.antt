-- ===== src/Chain/Walk.antt =====
-- internal/blockchain/chain.go: walks along parent links, and `computeReorgUnlocked`. A loop that
-- ends by a test on hashes takes fuel, the height at which it starts and one more: on the tree that
-- the operations keep, a walk meets genesis within its height.
use go_sim_chain.Prelude.{
  ℕ, zero, suc, ◌-◌, List, [], ◌∷◌, Option, none, some, reverse, ◌==◌, if◌then◌else◌, nat_eq,
}
use go_sim_chain.Map
use go_sim_chain.Types.{Hash, Block, zero_hash}
use go_sim_chain.Chain.State.{
  Blockchain, Reorg, Result, ok, err, nil_deref, diverged, ◌>>=◌, or_fail,
}

-- `bc.parent[h]`
unfoldable pub parent_of : Blockchain → Hash → Hash
parent_of bc h = Map.get_or h bc.parent zero_hash

-- `for oh > nh { o = bc.parent[o]; oh-- }`, with the rounds `oh - nh`
unfoldable pub climb : Blockchain → ℕ → Hash → Hash
climb bc zero h = h
climb bc (suc n) h = climb bc n (parent_of bc h)

-- `for o != n { o = bc.parent[o]; n = bc.parent[n] }`
unfoldable pub meet : Blockchain → ℕ → Hash → Hash → Result Hash
meet bc zero o n = err diverged
meet bc (suc fuel) o n =
    let rest = meet bc fuel (parent_of bc o) (parent_of bc n) in if o == n then ok o else rest

-- `for h := from; h != common; h = bc.parent[h] { out = append(out, bc.blocks[h]) }`. A nil block in
-- `out` would be followed by whoever reads the reorg.
unfoldable pub segment : Blockchain → ℕ → Hash → Hash → Result (List Block)
segment bc zero h common = err diverged
segment bc (suc fuel) h common =
    let rest = do
      b ← or_fail (Map.lookup h bc.blocks) nil_deref
      bs ← segment bc fuel (parent_of bc h) common
      ok (b ∷ bs)
    in if h == common then ok [] else rest

-- `ok none` is the source's nil.
unfoldable pub compute_reorg : Blockchain → Hash → Hash → Result (Option Reorg)
compute_reorg bc old_tip new_tip =
    let oh = Map.get_or old_tip bc.height 0 in
    let nh = Map.get_or new_tip bc.height 0 in
    let found = do
      common ← meet bc (suc oh) (climb bc (oh - nh) old_tip) (climb bc (nh - oh) new_tip)
      removed ← segment bc (suc oh) old_tip common
      added ← segment bc (suc nh) new_tip common
      ok (
          some
            (record { common_ancestor = common; removed = reverse removed; added = reverse added }))
    in if old_tip == new_tip then ok none else found
