-- ===== src/ThreadSafe.antt =====
-- The containers of src/thread-safe.
pub mod ConcurrentList
pub mod Queue
