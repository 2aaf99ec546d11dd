-- ===== src/Rpc/Remote.antt =====
-- What the two sides of a session accept from each other beside the frames: the validations of
-- src/rpc/mod.rs. The check for secret-shaped text is the parameter `is_secret`.
pub mod Secret
pub mod Argv
pub mod Capture
pub mod Doctor
pub mod Binding
pub mod Leaks
