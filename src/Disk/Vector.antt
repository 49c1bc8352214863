-- ===== src/Disk/Vector.antt =====
-- The vectors on disk of src/disk/vector.
pub mod Layout
pub mod DiskVector
pub mod DiskBufferVector
mod Tests
