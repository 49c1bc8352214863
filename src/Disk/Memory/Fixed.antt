-- ===== src/Disk/Memory/Fixed.antt =====
-- `DiskManagerMemory` of src/disk/bustub/disk_manager_memory.cpp: one array for a number of blocks.
-- What the array holds at first is a parameter, since `new char[]` leaves it open. `none` is
-- undefined: a copy that leaves the array.
use cpp_wtfsc.Base.{
  ℕ, ◌+◌, ◌*◌, ◌≤◌, ◌≡◌, refl, true, List, Option, none, some, leb, length, take, drop,
  if◌then◌else◌, arith,
}
use cpp_wtfsc.Base.Spans.{patch, length-patch, span-patch}

pub record FixedMemory (B : Type 0) : Type 0 where
  pub memory : List B
  pub num_writes : ℕ

module _ {B : Type 0} (null_byte : B) (block_size : ℕ) where
  unfoldable pub init : ℕ → (ℕ → List B) → FixedMemory B
  init pages fresh = record { memory = fresh (pages * block_size); num_writes = 0 }

  unfoldable pub write_block : FixedMemory B → ℕ → List B → Option (FixedMemory B)
  write_block m block_id block_data =
      let offset = block_id * block_size in
      if leb (offset + block_size) (length m.memory)
      then some (record {
        memory = patch null_byte m.memory offset (take block_size block_data);
        num_writes = m.num_writes + 1;
      })
      else none

  unfoldable pub read_block : FixedMemory B → ℕ → Option (List B)
  read_block m block_id =
      let offset = block_id * block_size in
      if leb (offset + block_size) (length m.memory)
      then some (take block_size (drop offset m.memory))
      else none

  -- A block inside the array can be written, and is then read back.
  read-write :
      (m : FixedMemory B) (block_id : ℕ) (block : List B)
      → block_id * block_size + block_size ≤ length m.memory
      → length (take block_size block) ≡ block_size
      → (m' : FixedMemory B) × (write_block m block_id block ≡ some m')
        × (read_block m' block_id ≡ some (take block_size block))
        × (length m'.memory ≡ length m.memory)
  unfolding write_block read_block
  read-write m block_id block inside whole =
      let offset = block_id * block_size in
      let bytes = take block_size block in
      let t : leb (offset + block_size) (length m.memory) ≡ true = ground arith in
      let same : length (patch null_byte m.memory offset bytes) ≡ length m.memory =
        ground (arith, length-patch null_byte m.memory offset bytes) in
      (
        record { memory = patch null_byte m.memory offset bytes; num_writes = m.num_writes + 1 },
        rw t refl,
        rw (same, t, span-patch null_byte m.memory offset bytes block_size whole) refl,
        same,
      )
