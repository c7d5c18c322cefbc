-- ===== src/Reader.antt =====
-- What a reader is told, and how: server/src/reader.
pub mod Chunker
pub mod SyncChunk
pub mod Session
pub mod Sessions
pub mod Example
