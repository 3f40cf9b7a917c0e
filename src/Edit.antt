-- ===== src/Edit.antt =====
-- server/edit-config.c: checking and normalising the content of <edit-config>.
pub mod Whitespace
pub mod Operation
pub mod Compact
pub mod Matching
pub mod Keys
pub mod Zipper
pub mod Apply
pub mod Live
pub mod Operations
