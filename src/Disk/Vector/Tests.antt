-- ===== src/Disk/Vector/Tests.antt =====
-- Concrete vectors of src/disk/vector, with pairs of bytes as elements; bytes are natural numbers.
use cpp_wtfsc.Base.{
  ℕ, ◌+◌, ◌*◌, ◌^◌, ◌≤◌, ◌<◌, ◌≡◌, ◌≢◌, refl, List, [], ◌∷◌, some, none, length, replicate, false,
  arith, length-replicate, zero, suc, get_elem?, if◌then◌else◌, ◌==◌,
}
use cpp_wtfsc.Disk.Stream.{Stream, seekp, write}
use cpp_wtfsc.Disk.BufferPool.{Page, DiskManager, BufferPool, free_frame, fetch_page}
use cpp_wtfsc.Base.Spans.{patch}
use cpp_wtfsc.Disk.Vector.Layout.{Layout}
use cpp_wtfsc.Disk.Vector.DiskVector
use cpp_wtfsc.Disk.Vector.DiskVector.RoundTrip.{get-put, get_past_end}
use cpp_wtfsc.Disk.Vector.DiskBufferVector
use cpp_wtfsc.Disk.Vector.DiskBufferVector.{page_size}
use cpp_wtfsc.Disk.Vector.DiskBufferVector.Unwritten.{
  IsPool, IsClean, Fits, run, get_call, put_call, put_never_written,
}

abbrev first_two : List ℕ → ℕ × ℕ
first_two (x ∷ y ∷ bytes) = (x, y)
first_two bytes = (0, 0)

abbrev pairs : Layout ℕ (ℕ × ℕ)
pairs = record {
  size = 2;
  to_bytes = λ v. v.0 ∷ v.1 ∷ [];
  from_bytes = first_two;
  size_pos = omega arith;
  length-to_bytes = λ v. refl;
  from_bytes-to_bytes = λ v. refl;
}

abbrev four_bytes : Stream ℕ
four_bytes = record { file = 1 ∷ 2 ∷ 3 ∷ 4 ∷ []; position = 0; failed = false }

test_gap :
    DiskVector.put 0 pairs four_bytes 3 (8, 9)
    ≡ record { file = 1 ∷ 2 ∷ 3 ∷ 4 ∷ 0 ∷ 0 ∷ 8 ∷ 9 ∷ []; position = 8; failed = false }
unfolding DiskVector.put DiskVector.seek seekp write
test_gap = refl

test_size : DiskVector.size 0 pairs four_bytes ≡ 2
unfolding DiskVector.size
test_size = refl

get-put_example :
    let io' = DiskVector.put 0 pairs four_bytes 1 (8, 9) in
    (io'.failed ≡ false)
    × ((1 + 1) * 2 ≤ length io'.file)
    × ((n : Stream ℕ) × (DiskVector.get 0 pairs io' 1 ≡ (some (8, 9), n)) × (n.failed ≡ false))
    × ((other : ℕ)
        → other ≢ 1
        → (other + 1) * 2 ≤ 4
        → other * 2 < 2 ^ 63
        → (w : ℕ × ℕ) × (n n' : Stream ℕ) × (DiskVector.get 0 pairs four_bytes other ≡ (some w, n))
          × (DiskVector.get 0 pairs io' other ≡ (some w, n'))
          × (n'.failed ≡ false))
get-put_example = get-put 0 pairs four_bytes 1 (8, 9) refl (omega arith)

get_past_end_example :
    let (got, io') = DiskVector.get 0 pairs four_bytes 2 in
    (got ≡ none)
    × (io'.file ≡ 1 ∷ 2 ∷ 3 ∷ 4 ∷ [])
    × ((p : ℕ) (v : ℕ × ℕ) → DiskVector.put 0 pairs io' p v ≡ io')
    × ((p : ℕ) → DiskVector.get 0 pairs io' p ≡ (none, io'))
get_past_end_example = get_past_end 0 pairs four_bytes 2 (omega arith) (omega arith)

-- A disk that counts the writes, and leaves every buffer as it is.
abbrev counting : DiskManager ℕ ℕ
counting = record { read_block = λ disk p buffer. buffer; write_block = λ disk p bytes. disk + 1 }

abbrev one_frame : BufferPool ℕ ℕ
one_frame = record {
  pages = record { page_id = none; is_dirty = false; contents = replicate 4096 0 } ∷ [];
  page_table = λ p. none;
  disk = 0;
}

one_frame_whole :
    (f : ℕ) (page : Page ℕ)
    → get_elem? one_frame.pages f ≡ some page
    → (length page.contents ≡ page_size) × (page.is_dirty ≡ false)
one_frame_whole zero page h = ground (arith, length-replicate {A = ℕ} 4096 0, h)
one_frame_whole (suc f) page h = absurd (ground arith)

one_frame-IsPool : IsPool one_frame
one_frame-IsPool = record {
  room = omega arith;
  in_range = λ p f h. absurd (ground arith);
  whole = λ f page h. (one_frame_whole f page h).0;
}

abbrev after_put : BufferPool ℕ ℕ
after_put = record {
  pages =
      record {
        page_id = some 0;
        is_dirty = false;
        contents = patch 0 (replicate 4096 0) 10 (8 ∷ 9 ∷ []);
      }
      ∷ [];
  page_table = λ p. if p == 0 then some 0 else none;
  disk = 0;
}

test_put : DiskBufferVector.put 0 pairs counting one_frame 5 (8, 9) ≡ some after_put
unfolding DiskBufferVector.put DiskBufferVector.page_of fetch_page free_frame
test_put = refl

put_never_written_example :
    (pool' : BufferPool ℕ ℕ) × (run 0 pairs counting one_frame (put_call 5 (8, 9) ∷ get_call 5 ∷ [])
      ≡ some pool')
    × IsClean pool'
    × (pool'.disk ≡ 0)
    × ((pos : ℕ) (v : ℕ × ℕ)
        → Fits 0 pairs counting pos
        → (changed : BufferPool ℕ ℕ) × (DiskBufferVector.put 0 pairs counting pool' pos v
            ≡ some changed)
          × (DiskBufferVector.get 0 pairs counting changed pos ≡ some (v, changed))
          × IsClean changed
          × (changed.disk ≡ 0))
put_never_written_example =
    put_never_written 0 pairs counting (put_call 5 (8, 9) ∷ get_call 5 ∷ []) one_frame
      (λ disk p buffer h. h) one_frame-IsPool (λ f page h. (one_frame_whole f page h).1)
      ((omega arith, omega arith), ((omega arith, omega arith), tt))
