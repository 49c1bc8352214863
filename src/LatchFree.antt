-- ===== src/LatchFree.antt =====
-- The lock-free containers of src/latch-free.
pub mod Queue
pub mod Spsc
pub mod Stack
