-- ===== src/Output.antt =====
-- src/output/mod.rs: exit statuses, error codes, diagnostics and command envelopes.
pub mod Exit
pub mod Code
pub mod Diagnostic
pub mod Envelope
