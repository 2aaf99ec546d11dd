-- ===== src/Manifest.antt =====
-- The description of a machine, src/manifest/mod.rs.
pub mod Defs
pub mod Secrets
pub mod Scan
pub mod Paths
pub mod Wire
pub mod Validate
pub mod Projection
