-- ===== src/Disk/BufferPool/Tests.antt =====
-- A pool of src/disk/vector/buffer_pool.h with one frame, over a disk whose blocks hold their number.
use cpp_wtfsc.Base.{
  ℕ, zero, suc, ◌≡◌, refl, sym, false, [], ◌∷◌, none, some, get_elem?, arith, ◌==◌, if◌then◌else◌,
}
use cpp_wtfsc.Disk.BufferPool.{Page, DiskManager, BufferPool, is_free, fetch_page}
use cpp_wtfsc.Disk.BufferPool.Frames.{evicted_page_is_stale}

abbrev numbered : DiskManager ℕ ℕ
numbered = record { read_block = λ d p buffer. p ∷ []; write_block = λ d p contents. d }

abbrev pool : BufferPool ℕ ℕ
pool = record {
  pages = record { page_id = some 7; is_dirty = false; contents = 7 ∷ [] } ∷ [];
  page_table = λ p. if p == 7 then some 0 else none;
  disk = 0;
}

pool_busy : (j : ℕ) (page : Page ℕ) → get_elem? pool.pages j ≡ some page → is_free page ≡ false
pool_busy zero page e =
    let same : record { page_id = some 7; is_dirty = false; contents = 7 ∷ [] } ≡ page =
      ground (arith, e) in
    rw (sym same) refl
pool_busy (suc j) page e = absurd (ground (arith, e))

evicted_page_is_stale_example :
    (pool' : BufferPool ℕ ℕ) × (page : Page ℕ) × (fetch_page numbered pool 8 ≡ some (0, pool'))
    × (fetch_page numbered pool' 7 ≡ some (0, pool'))
    × (get_elem? pool'.pages 0 ≡ some page)
    × (page.page_id ≡ some 8)
evicted_page_is_stale_example =
    evicted_page_is_stale numbered pool 7 8 (omega arith) pool_busy refl refl
