-- ===== src/Demo.antt =====
-- The programs of src/demo that have a data structure of their own.
pub mod LfuCache
