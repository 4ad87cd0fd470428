-- ===== src/Protocol.antt =====
-- protocol/: the wire protocol. `Error` has the errors that travel through the program, `Msg` the
-- frame's payload, `Stream` an io.ReadWriter, `Frame` one frame on it, `Pack` packs in TData frames.
pub mod Error
pub mod Msg
pub mod Stream
pub mod Frame
pub mod Pack
