-- ===== src/Disk/BufferPool.antt =====
-- `BufferPool` of src/disk/vector/buffer_pool.h over a disk manager that is a parameter. A page number
-- of -1 is `none`. A call returns `none` where the code leaves the array of frames.
pub mod Frames
mod Tests
use cpp_wtfsc.Base.{
  ℕ, zero, suc, ◌+◌, Bool, true, false, List, [], ◌∷◌, Option, none, some, ◌>>=◌, ◌==◌, get_elem?,
  set, if◌then◌else◌,
}

pub record Page (B : Type 0) : Type 0 where
  pub page_id : Option ℕ
  pub is_dirty : Bool
  pub contents : List B

-- `ReadBlock` fills a buffer, which it may leave as it is; `WriteBlock` changes the disk.
pub record DiskManager (B D : Type 0) : Type 0 where
  pub read_block : D → ℕ → List B → List B
  pub write_block : D → Option ℕ → List B → D

pub record BufferPool (B D : Type 0) : Type 0 where
  pub pages : List (Page B)
  pub page_table : ℕ → Option ℕ
  pub disk : D

module _ {B : Type 0} where
  abbrev pub is_free : Page B → Bool
  is_free page = elim page.page_id [ none ↦ true | some p ↦ false ]

  -- The loop that looks for a free frame from frame `i` on; frame 0 where there is none.
  unfoldable pub free_frame : ℕ → List (Page B) → ℕ
  free_frame i [] = 0
  free_frame i (page ∷ pages) = if is_free page then i else free_frame (i + 1) pages

module _ {B D : Type 0} (manager : DiskManager B D) where
  -- The frame that holds the page, and the pool.
  unfoldable pub fetch_page : BufferPool B D → ℕ → Option (ℕ × BufferPool B D)
  unfolding free_frame
  fetch_page pool page_id =
      let frame_id = free_frame 0 pool.pages in
      let load : Option (ℕ × BufferPool B D) = get_elem? pool.pages frame_id >>= λ page.
      let disk =
        if page.is_dirty
        then manager.write_block pool.disk page.page_id page.contents
        else pool.disk in
      some (
        frame_id,
        record {
          pages = set pool.pages frame_id (record {
            page_id = some page_id;
            is_dirty = false;
            contents = manager.read_block disk page_id page.contents;
          });
          page_table = λ p. if p == page_id then some frame_id else pool.page_table p;
          disk = disk;
        },
      ) in
      elim (pool.page_table page_id) [ none ↦ load | some frame_id' ↦ some (frame_id', pool) ]
