-- ===== src/Serve.antt =====
-- The server's command: its key, which addresses it advertises, and what it starts and stops.
pub mod Addrs
pub mod Key
pub mod Main
