-- ===== src/Transport.antt =====
-- How a controller reaches a worker, src/transport.
pub mod Address
pub mod Target
pub mod HostKey
