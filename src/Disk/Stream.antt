-- ===== src/Disk/Stream.antt =====
-- The file streams of src/disk/vector/disk_vector.h and src/disk/vector/disk_manager.cpp: what these
-- use of `std::fstream` opened for reading and writing, and of `stat`. A write goes through to the
-- file, since each one is followed by `flush`; a failed write to the device is left out. A write past
-- the end leaves zeros in between.
use cpp_wtfsc.Base.{
  ℕ, ◌+◌, Bool, Option, some, none, List, [], ltb, length, take, drop, false, if◌then◌else◌,
}
use cpp_wtfsc.Base.Spans.{patch}

-- The bytes of the file, the one position, and whether `failbit` is set.
pub record Stream (B : Type 0) : Type 0 where
  pub file : List B
  pub position : ℕ
  pub failed : Bool

module _ {B : Type 0} where
  -- Opened as it is where there is a file, and otherwise made anew, empty; `none` is the exception that
  -- is thrown where it cannot be made.
  unfoldable pub open_or_create : Option (List B) → Bool → Option (Stream B)
  open_or_create on_disk can_create = elim on_disk [
    | some bytes ↦ some (record { file = bytes; position = 0; failed = false })
    | none ↦ if can_create then some (record { file = []; position = 0; failed = false }) else none
  ]

  -- On a stream that failed, `seekp`, `read` and `write` do nothing.
  unfoldable pub seekp : Stream B → ℕ → Stream B
  seekp io offset = if io.failed then io else record io { position = offset }

  -- The bytes that were read, fewer than `n` at the end of the file; the stream fails then.
  unfoldable pub read : Stream B → ℕ → List B × Stream B
  read io n =
      let got = take n (drop io.position io.file) in
      if io.failed
      then ([], io)
      else (got, record io { position = io.position + length got; failed = ltb (length got) n })

  unfoldable pub clear : Stream B → Stream B
  clear io = record io { failed = false }

  unfoldable pub write : B → Stream B → List B → Stream B
  write null_byte io bytes = if io.failed then io else record io {
    file = patch null_byte io.file io.position bytes;
    position = io.position + length bytes;
  }
