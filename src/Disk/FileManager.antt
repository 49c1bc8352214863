-- ===== src/Disk/FileManager.antt =====
-- The class DiskManager of src/disk/vector/disk_manager.cpp, blocks of a file. A call holds
-- `io_latch_` to its end, so the calls of all threads act one after the other. `none` is undefined:
-- the product of `int`s in `ReadBlock` overflows. Messages on `std::cout` are left out, and the file
-- stays where it is while it is open, so `stat` finds it. `ShutDown`, which closes the file, is left
-- out.
pub mod RoundTrip
mod Tests
use cpp_wtfsc.Base.{
  ℕ, ◌+◌, ◌-◌, ◌*◌, ◌%◌, ◌^◌, Bool, true, false, List, ◌++◌, Option, none, some, ◌>>=◌, ltb, length,
  take, replicate, if◌then◌else◌,
}
use cpp_wtfsc.Disk.Stream.{Stream, open_or_create, seekp, read, write, clear}

abbrev pub block_size : ℕ
block_size = 4096

pub record FileManager (B : Type 0) : Type 0 where
  pub io : Stream B
  pub num_writes : ℕ

-- `offset > GetFileSize(file_name_)`: the size of the file is cast to `int`, and is negative where bit
-- 31 is set.
unfoldable pub past_end : ℕ → ℕ → Bool
past_end offset st_size =
    let size = st_size % 2 ^ 32 in if ltb size (2 ^ 31) then ltb size offset else true

module _ {B : Type 0} (null_byte : B) where
  unfoldable pub init : Option (List B) → Bool → Option (FileManager B)
  unfolding open_or_create
  init on_disk can_create = do
    io ← open_or_create on_disk can_create
    some (record { io = io; num_writes = 0 })

  unfoldable pub write_block : FileManager B → ℕ → List B → FileManager B
  write_block m block_id block_data =
      let offset = block_id * block_size in
      record {
        io = write null_byte (seekp m.io offset) (take block_size block_data);
        num_writes = m.num_writes + 1;
      }

  -- What the caller's buffer holds afterwards, and the manager.
  unfoldable pub read_block : FileManager B → ℕ → List B → Option (List B × FileManager B)
  unfolding past_end
  read_block m block_id block_data =
      let offset = block_id * block_size in
      let (got, io) = read (seekp m.io offset) block_size in
      let rest =
        if ltb (length got) block_size
        then (got ++ replicate (block_size - length got) null_byte, record m { io = clear io })
        else (got, record m { io = io }) in
      if ltb offset (2 ^ 31)
      then some (if past_end offset (length m.io.file) then (block_data, m) else rest)
      else none
