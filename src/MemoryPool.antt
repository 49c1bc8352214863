-- ===== src/MemoryPool.antt =====
-- The containers of src/memory_pool.
pub mod Vector
pub mod Pool
