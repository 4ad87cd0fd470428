-- ===== src/Wantsync.antt =====
-- wantsync/: the have/want transfer. `Library` is what it takes from amber-store-core.
pub mod Library
pub mod Keys
pub mod Wants
pub mod Deal
pub mod Send
pub mod Receive
