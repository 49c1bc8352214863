-- ===== src/Disk.antt =====
-- The storage code of src/disk.
pub mod BufferPool
pub mod Leveldb
pub mod Memory
pub mod Stream
pub mod Vector
pub mod FileManager
