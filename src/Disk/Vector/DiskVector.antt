-- ===== src/Disk/Vector/DiskVector.antt =====
-- The class DiskVector of src/disk/vector/disk_vector.h. The value that `get` returns without having
-- read it whole is `none`. `ReadBlock` and `WriteBlock`, which no method calls, are left out.
pub mod RoundTrip
use cpp_wtfsc.Base.{
  ℕ, ◌+◌, ◌-◌, ◌*◌, ◌/◌, ◌%◌, ◌^◌, List, Bool, Option, none, some, ltb, length, true, false,
  if◌then◌else◌,
}
use cpp_wtfsc.Disk.Stream.{Stream, open_or_create, seekp, read, write}
use cpp_wtfsc.Disk.Vector.Layout.{Layout}

module _ {B T : Type 0} (null_byte : B) (layout : Layout B T) where
  unfoldable pub init : Option (List B) → Bool → Option (Stream B)
  unfolding open_or_create
  init on_disk can_create = open_or_create on_disk can_create

  -- The product wraps in `size_t`; as an offset of 64 bits with a sign it may then be negative, and the
  -- stream fails.
  unfoldable pub seek : Stream B → ℕ → Stream B
  seek io pos =
      let offset = pos * layout.size % 2 ^ 64 in
      if ltb offset (2 ^ 63) then seekp io offset else record io { failed = true }

  unfoldable pub get : Stream B → ℕ → Option T × Stream B
  unfolding seek
  get io pos =
      let (bytes, io') = read (seek io pos) layout.size in
      (if ltb (length bytes) layout.size then none else some (layout.from_bytes bytes), io')

  unfoldable pub put : Stream B → ℕ → T → Stream B
  unfolding seek
  put io pos value = write null_byte (seek io pos) (layout.to_bytes value)

  -- The size of the file is cast to `int`, and that to `size_t` for the division.
  unfoldable pub size : Stream B → ℕ
  size io =
      let st_size = length io.file % 2 ^ 32 in
      (if ltb st_size (2 ^ 31) then st_size else 2 ^ 64 - 2 ^ 32 + st_size) / layout.size
