-- ===== src/Tests.antt =====
-- The theorems at concrete inputs.
mod Blocks
mod Pools
mod Links
mod Shakes
mod Json
mod Files
mod Fanouts
mod Syncs
mod Nodes
