-- ===== src/Importer.antt =====
-- The bulk subscriber importer, internal/subimporter.
pub mod Status
pub mod Types
pub mod Domains
pub mod Columns
pub mod Rows
pub mod Session
pub mod Load
pub mod Control
pub mod Check
mod Examples
