-- ===== src/Tests.antt =====
-- The theorems applied to concrete inputs, over a small instance of what the model takes as parameters.
mod Toy
mod ToyRefs
mod Protocol
mod Wantsync
mod Server
mod Client
mod Races
mod Dial
mod Commands
mod Locks
mod Wire
mod Late
mod Shutdown
mod Serve
