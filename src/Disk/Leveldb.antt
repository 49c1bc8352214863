-- ===== src/Disk/Leveldb.antt =====
-- The file interface of src/disk/leveldb.
pub mod Posix
pub mod Slice
pub mod Status
pub mod WritableFile
