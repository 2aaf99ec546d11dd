-- ===== src/Rpc.antt =====
-- The RPC protocol between a controller and a worker: src/rpc.
pub mod Frame
pub mod Wire
pub mod Negotiation
pub mod Id
pub mod Errors
pub mod Server
pub mod Process
pub mod Client
pub mod Exchange
pub mod Remote
pub mod Methods
