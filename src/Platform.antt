-- ===== src/Platform.antt =====
-- What src/platform/mod.rs says of the three operating systems without asking them.
pub mod Principal
