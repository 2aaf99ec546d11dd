-- ===== src/Json.antt =====
-- JSON: the values of serde_json and the visitor of src/rpc/frame.rs that refuses repeated fields.
pub mod Defs
pub mod Visitor
