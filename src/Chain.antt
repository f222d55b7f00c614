-- ===== src/Chain.antt =====
-- internal/blockchain/chain.go: the block tree of a node and its operations.
pub mod State
pub mod Walk
pub mod Add
pub mod Query
pub mod Valid
pub mod Grown
pub mod Advance
pub mod Ancestry
pub mod Switch
pub mod Report
pub mod Orphans
pub mod Settle
pub mod Start
pub mod MainChain
