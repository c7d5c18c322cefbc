-- ===== src/Operations.antt =====
-- server/src/db_operations: what a write does to the table, to the queue of the disk and to the readers.
pub mod Core
pub mod Sync
pub mod Laws
pub mod Write
pub mod Disk
pub mod Init
pub mod Example
pub mod Schemas
