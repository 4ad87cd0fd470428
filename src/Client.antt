-- ===== src/Client.antt =====
-- The command-line client: its commands, and what their transfers do with the local store and with the streams to the server.
pub mod Spec
pub mod Extras
pub mod Store
pub mod Refs
pub mod Export
pub mod Import
pub mod Progress
pub mod Xfer
pub mod Dial
pub mod Ls
pub mod Push
pub mod Pull
pub mod Laws
pub mod Tracks
