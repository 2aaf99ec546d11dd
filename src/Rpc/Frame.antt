-- ===== src/Rpc/Frame.antt =====
-- src/rpc/frame.rs: the frames of the protocol, their JSON form and their lines on the wire.
pub mod Defs
pub mod Encode
pub mod Raw
pub mod Decode
mod Reading
pub mod Bounds
pub mod RoundTrip
