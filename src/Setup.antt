-- ===== src/Setup.antt =====
-- The setup of a machine: src/setup.
pub mod Plan
pub mod Pending
