-- ===== src/Chain/Query.antt =====
-- internal/blockchain/chain.go: the locator, the metas after it, and the main chain.
use go_sim_chain.Prelude.{
  ℕ, zero, suc, ◌+◌, ◌-◌, ◌*◌, ◌%◌, ◌^◌, List, [], ◌∷◌, none, some, reverse, ◌==◌, ◌||◌, ltb, leb,
  if◌then◌else◌, length, take, drop, nat_eq,
}
use go_sim_chain.Prelude.Int.{ℤ, pos, negsuc, or_default}
use go_sim_chain.Map
use go_sim_chain.Map.{Map}
use go_sim_chain.Types.{Hash, Block, BlockMeta, is_zero}
use go_sim_chain.Chain.State.{Blockchain, Result, ok, err, diverged, ◌>>=◌}
use go_sim_chain.Chain.Walk.{parent_of, climb}

-- The loop of `locatorUnlocked`: `room` is `max - len(out)` and `taken` is `len(out)`. The inner
-- loop takes `min step height` steps back. `step` is a uint64.
unfoldable pub locate : Blockchain → ℕ → ℕ → Hash → ℕ → ℕ → List Hash
unfolding climb
locate bc zero taken h height step = []
locate bc (suc room) taken h height step =
    let back = if leb step height then step else height in
    let next = if leb 10 (taken + 1) then (step * 2) % 2 ^ 64 else step in
    let rest = locate bc room (taken + 1) (climb bc back h) (height - back) next in
    if h == bc.genesis || height == 0 then h ∷ [] else h ∷ rest

unfoldable pub locator : Blockchain → ℤ → List Hash
locator bc max = locate bc (or_default max 32) 0 bc.tip (Map.get_or bc.tip bc.height 0) 1

-- The first loop of `mainChainHashesUnlocked`: from `h` back to genesis.
unfoldable pub back_to_genesis : Blockchain → ℕ → Hash → Result (List Hash)
back_to_genesis bc zero h = err diverged
back_to_genesis bc (suc fuel) h =
    let rest = (do hs ← back_to_genesis bc fuel (parent_of bc h); ok (h ∷ hs)) in
    if h == bc.genesis then ok (h ∷ []) else rest

unfoldable pub main_chain_hashes : Blockchain → Result (List Hash)
main_chain_hashes bc =
    let walked = do
      hs ← back_to_genesis bc (suc (Map.get_or bc.tip bc.height 0)) bc.tip
      ok (reverse hs)
    in if is_zero bc.tip then ok [] else walked

-- `index[h] = i` for each hash of the main chain, from `i` on
unfoldable pub index_from : ℕ → List Hash → Map Hash ℕ → Map Hash ℕ
index_from i [] index = index
index_from i (h ∷ hs) index = index_from (i + 1) hs (Map.insert h i index)

-- The index of the first locator hash on the main chain, or genesis.
unfoldable pub common_index : List Hash → Map Hash ℕ → ℕ
common_index [] index = 0
common_index (h ∷ hs) index = elim (Map.lookup h index) [
  | none ↦ common_index hs index
  | some i ↦ i
]

unfoldable pub metas_of : Blockchain → List Hash → List BlockMeta
metas_of bc [] = []
metas_of bc (h ∷ hs) = elim (Map.lookup h bc.blocks) [
  | none ↦ metas_of bc hs
  | some b ↦ record { header = b.header; nonce = b.nonce; hash = b.hash } ∷ metas_of bc hs
]

-- `main[start:end]` is empty where the source returns nil early.
unfoldable pub metas_from_locator : Blockchain → List Hash → ℤ → Result (List BlockMeta)
unfolding main_chain_hashes common_index index_from metas_of
metas_from_locator bc hashes max = do
  main ← main_chain_hashes bc
  let start = common_index hashes (index_from 0 main []) + 1
  ok (metas_of bc (take (or_default max 2000) (drop start main)))

unfoldable pub blocks_of : Blockchain → List Hash → List Block
blocks_of bc [] = []
blocks_of bc (h ∷ hs) = elim (Map.lookup h bc.blocks) [
  | none ↦ blocks_of bc hs
  | some b ↦ b ∷ blocks_of bc hs
]

-- `hashes[len(hashes)-limit:]` for a positive limit below the length
unfoldable pub last_part : ℤ → List Hash → List Hash
last_part (pos zero) hs = hs
last_part (pos (suc n)) hs = if ltb (suc n) (length hs) then drop (length hs - suc n) hs else hs
last_part (negsuc n) hs = hs

unfoldable pub main_chain_blocks : Blockchain → ℤ → Result (List Block)
unfolding main_chain_hashes last_part blocks_of
main_chain_blocks bc limit = do
  hashes ← main_chain_hashes bc
  ok (blocks_of bc (last_part limit hashes))
