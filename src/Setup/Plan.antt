-- ===== src/Setup/Plan.antt =====
-- The setup plan of src/setup/plan/mod.rs: what each desired change does, given what was observed.
pub mod Defs
pub mod Desired
pub mod Compute
pub mod Spec
pub mod Planned
pub mod Format
pub mod Groups
pub mod Linked
