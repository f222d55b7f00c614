-- ===== src/Syncer.antt =====
-- internal/syncer: how a node finds out which blocks it lacks and asks its peers for them.
pub mod Metrics
pub mod State
pub mod Lanes
pub mod Dispatch
pub mod Inflight
pub mod Headers
pub mod Handlers
pub mod Sound
pub mod Window
pub mod Fill
pub mod Dispatched
pub mod Sends
pub mod Retries
pub mod Attempts
pub mod Failures
pub mod Ticked
pub mod Expiry
pub mod Rounds
pub mod Handled
pub mod Run
pub mod History
