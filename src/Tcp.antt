-- ===== src/Tcp.antt =====
-- internal/transport/tcp/tcp.go: the TCP transport's limits, address book and connections.
pub mod Settings
pub mod Defaults
pub mod Frame
pub mod Handshake
pub mod Agreement
pub mod Proven
pub mod Limits
pub mod Admission
pub mod Addresses
pub mod Book
pub mod Connections
pub mod Release
pub mod Run
