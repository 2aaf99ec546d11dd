-- ===== src/Inventory.antt =====
-- The hosts that a controller knows, src/inventory/store.rs, without the locks and files.
pub mod Names
pub mod Document
pub mod Sorted
pub mod Laws
pub mod Replace
