-- ===== src/Store.antt =====
-- internal/store/store.go: the main chain on disk.
pub mod Disk
pub mod Change
pub mod Saved
pub mod Persisted
pub mod Restart
pub mod Begin
pub mod Reorged
