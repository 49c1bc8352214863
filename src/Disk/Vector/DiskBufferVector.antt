-- ===== src/Disk/Vector/DiskBufferVector.antt =====
-- The class DiskBufferVector of src/disk/vector/disk_buffer_vector.h over the buffer pool. `none` is
-- undefined: the frame is not there, or the value does not lie within its page. A position whose page
-- number comes out negative is left out, and is `none` too.
pub mod Unwritten
use cpp_wtfsc.Base.{
  ℕ, ◌+◌, ◌*◌, ◌/◌, ◌%◌, ◌^◌, List, Option, none, some, ◌>>=◌, leb, ltb, length, take, drop,
  get_elem?, set, if◌then◌else◌,
}
use cpp_wtfsc.Base.Spans.{patch}
use cpp_wtfsc.Disk.BufferPool.{Page, DiskManager, BufferPool, fetch_page}
use cpp_wtfsc.Disk.Vector.Layout.{Layout}

abbrev pub page_size : ℕ
page_size = 4096

module _ {B D T : Type 0} (null_byte : B) (layout : Layout B T) (manager : DiskManager B D) where
  -- The product wraps in `size_t`, and the page number is cut to 32 bits.
  unfoldable pub page_of : ℕ → Option ℕ
  page_of pos =
      let p = pos * layout.size % 2 ^ 64 / page_size % 2 ^ 32 in
      if ltb p (2 ^ 31) then some p else none

  unfoldable pub get : BufferPool B D → ℕ → Option (T × BufferPool B D)
  unfolding page_of
  get pool pos = do
    p ← page_of pos
    (frame, pool') ← fetch_page manager pool p
    page ← get_elem? pool'.pages frame
    let offset = pos * layout.size % 2 ^ 64 % page_size
    if leb (offset + layout.size) (length page.contents)
        then some (layout.from_bytes (take layout.size (drop offset page.contents)), pool')
        else none

  unfoldable pub put : BufferPool B D → ℕ → T → Option (BufferPool B D)
  unfolding page_of
  put pool pos value = do
    p ← page_of pos
    (frame, pool') ← fetch_page manager pool p
    page ← get_elem? pool'.pages frame
    let offset = pos * layout.size % 2 ^ 64 % page_size
    if leb (offset + layout.size) (length page.contents)
        then some (record pool' {
          pages = set pool'.pages frame (record page {
            contents = patch null_byte page.contents offset (layout.to_bytes value);
          });
        })
        else none
