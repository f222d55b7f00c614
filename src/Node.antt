-- ===== src/Node.antt =====
-- internal/node: the node that joins the chain, the mempool and the synchroniser.
pub mod State
pub mod Blocks
pub mod Messages
pub mod Cleared
pub mod Sound
pub mod Answers
pub mod Run
