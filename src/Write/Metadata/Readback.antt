-- ===== src/Write/Metadata/Readback.antt =====
-- The metadata region that `write_metadata_region` (src/write.rs) writes, as `BackupFile::parse`
-- (src/reader.rs) reads it.
pub mod Fresh
pub mod Partitions
pub mod Parsed
pub mod Copied
pub mod Regions
