-- ===== src/Pages.antt =====
-- The B-tree pages of src/tree_store/btree_base.rs.
pub mod Column
pub mod Ends
pub mod Extend
pub mod Search
pub mod Leaf
pub mod Branch
pub mod Checksum
mod Tests
