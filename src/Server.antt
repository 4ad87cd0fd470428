-- ===== src/Server.antt =====
-- The server: its shared state, its operations, and its accept loops.
pub mod Transfers
pub mod World
pub mod Refs
pub mod Channels
pub mod Push
pub mod Pull
pub mod Handle
pub mod Locks
pub mod Accept
pub mod Attach
pub mod Setup
