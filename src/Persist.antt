-- ===== src/Persist.antt =====
-- The write-behind queue and the page-files: server/src/persist.
pub mod SizeClass
pub mod BinaryReader
pub mod PartitionBlob
pub mod Slot
pub mod Markers
pub mod Files
pub mod TablesMeta
pub mod Repo
