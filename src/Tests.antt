-- ===== src/Tests.antt =====
-- Runs of the model at concrete inputs: small stand-ins for the crates, and one example for each
-- theorem.
mod Crates
mod Frames
mod Streams
mod Sessions
mod Outputs
mod Plans
mod Remotes
mod Commands
mod Hosts
mod Manifests
mod Inventories
mod Statuses
