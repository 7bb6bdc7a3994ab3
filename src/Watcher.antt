-- ===== src/Watcher.antt =====
-- internal/watcher: the daemon on a backend's host. It rebuilds the node's DNAT rules from the state
-- of Docker, and reserves the identity of an address that a server bans.
pub mod Docker
pub mod Events
pub mod NoSnat
pub mod Files
pub mod Bans
pub mod Node
pub mod Service
