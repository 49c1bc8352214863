-- ===== src/Lib.antt =====
-- Verification of the data structures and services of CPP-WTFSC.
--
-- The repository is a collection of small C++ components that share no code; each has its own module
-- here, and Base holds what the models share: lists and their positions over the native numbers,
-- Boolean tests, options.
--
-- Demo.LfuCache               src/demo/lfu.cpp: the class `LFUCache`. Iterators are numbers of list nodes.
--   Entries is the cache as a list of entries, and Refine the reference that throws out the least
--   frequently used one. Where a rehash invalidates iterators of a table is a parameter.
-- Disk.BufferPool             src/disk/vector/buffer_pool.h: `Page`, `BufferPool` and `FetchPage`, over
--   a disk manager that is a parameter.
-- Disk.FileManager            src/disk/vector/disk_manager.cpp: `WriteBlock` and `ReadBlock` on a file.
--   Disk.Stream is what the code uses of `std::fstream`: bytes, one position and `failbit`.
-- Disk.Leveldb.Slice         src/disk/leveldb/slice.h: the bytes from `data_` on and a size.
-- Disk.Leveldb.Status        src/disk/leveldb/status.h: the array that the constructor fills. Sizes are
--   those of `uint32_t`. Copies are left out: nothing defines `CopyState`.
-- Disk.Leveldb.WritableFile   src/disk/leveldb/env_posix.cpp: `Append`, `Flush`, `Sync`, `Close`,
--   `FlushBuffer`, `WriteUnbuffered` are the functions of the same names in snake case. The system
--   calls are the parameter `Posix`; `WritesInOrder` states what `write` promises. The loop of
--   `WriteUnbuffered` runs on fuel: the bytes to write and the interruptions to come are enough.
-- Disk.Memory                 src/disk/bustub/disk_manager_memory.cpp: `WriteBlock` and `ReadBlock` of
--   `DiskManagerUnlimitedMemory`, and in Fixed those of `DiskManagerMemory`.
-- Disk.Vector                 src/disk/vector: DiskVector is disk_vector.h on a stream, and
--   DiskBufferVector is disk_buffer_vector.h on the buffer pool. How a value lies in memory is the
--   parameter `Layout`.
-- Hashmap                     src/hashmap/concurrent_map.cpp: `ConcurrentMap` and, in Buckets,
--   its `Bucket`. The hash is a parameter. A bucket's lock is held for a whole call, so a call is a
--   function.
-- LatchFree.Queue             src/latch-free/queue.cpp: a step relation in which each step of a thread
--   in `push` or `pop` is one access to `head`, `tail` or a node. Produce and Consume are its steps.
-- LatchFree.Spsc              src/latch-free/spsc-20.cpp: a step relation in which each step of the
--   producer (`emplace`) and of the consumer (`pop`) is one access to shared memory. Loads and stores
--   of the two indices are sequentially consistent.
-- LatchFree.Stack             src/latch-free/stack.cpp: a step relation in which each step of a thread
--   in `push` or `pop` is one access to `head`, whose first value is a parameter. Nodes are not
--   freed, so no address is used twice.
-- Matrix.Parallel             src/parallel-sparse-matrix/sparse_matrix.h: the class that counts from 0
--   and tests no coordinate; `multiply` and `multiply_row` are the products with a vector.
-- Matrix.Sparse               src/matrix/sparse_matrix.cpp: the class `SparseMatrix` in compressed
--   rows. Sparse has `get`, `set`, `insert` and `remove`, Arithmetic the operations on whole
--   matrices, Lifetime copies, assignment and comparison; Storage has the loops over the arrays,
--   Rows what the arrays spell. A negative dimension or coordinate is one with 0, which the same test
--   refuses. Offsets do not wrap. The printing operator is left out.
-- MemoryPool.Pool             src/memory_pool/MemoryPool.h: blocks with their neighbours in a map from
--   addresses, units by their position; `malloc` is a parameter. Units says when a pool is in order.
--   The move assignment is left out; the loop of the destructor runs on fuel, and as many rounds as
--   addresses were given out are enough.
-- MemoryPool.Vector           src/memory_pool/Vector.h: the block as cells that hold an object or
--   none. Calls runs sequences of calls, to the destructor. Whether the allocator's `deallocate`
--   takes the count 1 for any block is a parameter.
-- RateLimiter                 src/rate-limiter: TokenBucket is token_bucket.hpp, LeakyBucket is
--   leak_bucket.hpp and OneToken the class of token_bucket.cpp. Amounts and the clock are parameters;
--   the laws of the amounts hold for `double`s with their rounding.
-- ThreadPool                  src/thread-pool/thread_pool.h: a step relation with one step for each
--   critical section, and one for the end of a task. What a task computes is left out.
-- ThreadSafe.ConcurrentList   src/thread-safe/list.cpp: a step relation over the mutexes and nodes of
--   the list, in which a thread locks the next node before it unlocks the last one.
-- ThreadSafe.Queue            src/thread-safe/queue.cpp: `Queue` and `DummyQueue` as functions on a
--   heap of nodes, `ConcurrentQueue` as a step relation over the critical sections of its two locks.
-- TypeTraits.QuickSort        src/type-traits/quicksort.cpp: the templates as functions; the depth of
--   instantiation is fuel, and the length of the list is enough.
--
-- Undefined behaviour is a result of its own: `undefined` for the matrices and the memory pool, `none`
-- for the vector, the queues, the cache, the slices, the statuses, the buffer pool, the vectors on disk
-- and the disk managers. In the writable file and the sort `none` is lack of fuel. Numbers of blocks, pages and positions are natural numbers; where
-- an `int` offset would overflow, `ReadBlock` is undefined.
--
-- Not modelled: the stack of src/thread-safe, src/latch-free/spsc-17.cpp, which has the protocol of
-- spsc-20.cpp, `ShutDown` of the disk manager, and the programs that
-- only make system calls or print. src/thread-safe/map.cpp, src/disk/bustub/disk_manager.cpp and
-- src/parallel-sparse-matrix/thread_pool.h are second copies of code that is modelled.
pub mod Base
pub mod Demo
pub mod Disk
pub mod Hashmap
pub mod LatchFree
pub mod Matrix
pub mod MemoryPool
pub mod RateLimiter
pub mod ThreadPool
pub mod ThreadSafe
pub mod TypeTraits
