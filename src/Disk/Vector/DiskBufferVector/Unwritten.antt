-- ===== src/Disk/Vector/DiskBufferVector/Unwritten.antt =====
-- What `get` of src/disk/vector/disk_buffer_vector.h returns after `put`, and what reaches the disk.
use cpp_wtfsc.Base.{
  ℕ, ◌+◌, ◌*◌, ◌/◌, ◌%◌, ◌^◌, ◌≤◌, ◌<◌, ◌≡◌, inl, inr, refl, ap, ◌∙◌, true, false, ◌==◌, List,
  Option, none, some, leb, ltb, length, take, drop, set, get_elem?, if◌then◌else◌, arith,
  get_elem?-set, get_elem?_in_range, length-set, ◌>>=◌, [], ◌∷◌,
}
use cpp_wtfsc.Base.Spans.{patch, length-patch, span-patch}
use cpp_wtfsc.Disk.BufferPool.{Page, DiskManager, BufferPool, free_frame, fetch_page}
use cpp_wtfsc.Disk.BufferPool.Frames.{free_frame_in_range}
use cpp_wtfsc.Disk.Vector.Layout.{Layout}
use cpp_wtfsc.Disk.Vector.DiskBufferVector.{page_size, page_of, get, put}

-- A pool with a frame, whose table names frames, and whose pages are whole.
pub record IsPool {B D : Type 0} (pool : BufferPool B D) : Type 0 where
  pub room : 1 ≤ length pool.pages
  pub in_range : (p f : ℕ) → pool.page_table p ≡ some f → f < length pool.pages
  pub whole :
      (f : ℕ) (page : Page B)
      → get_elem? pool.pages f ≡ some page
      → length page.contents ≡ page_size

-- No page is marked as changed.
abbrev pub IsClean : {B D : Type 0} → BufferPool B D → Type 0
IsClean {B} pool =
    (f : ℕ) (page : Page B) → get_elem? pool.pages f ≡ some page → page.is_dirty ≡ false

-- `ReadBlock` fills the buffer that it gets, or leaves it.
abbrev pub FillsBlocks : {B D : Type 0} → DiskManager B D → Type 0
FillsBlocks {B} {D} manager =
    (disk : D) (p : ℕ) (buffer : List B)
    → length buffer ≡ page_size
    → length (manager.read_block disk p buffer) ≡ page_size

module _ {B D : Type 0} (manager : DiskManager B D) (pool : BufferPool B D) where
  -- What `FetchPage` leaves: the frame that it returns is there, and the table names it.
  abbrev Fetched : ℕ → Type 0
  Fetched p =
      (f : ℕ) × (pool' : BufferPool B D) × (page : Page B) × (fetch_page manager pool p
        ≡ some (f, pool'))
      × IsPool pool'
      × (get_elem? pool'.pages f ≡ some page)
      × (pool'.page_table p ≡ some f)
      × (IsClean pool → IsClean pool' × (pool'.disk ≡ pool.disk))

  fetch_hit : (p f : ℕ) → IsPool pool → pool.page_table p ≡ some f → Fetched p
  unfolding fetch_page
  fetch_hit p f v e =
      let (page, here) = get_elem?_in_range pool.pages f (v.in_range p f e) in
      (f, pool, page, rw (fetch_page, e) refl, v, here, e, λ clean. (clean, refl))

  fetch_miss : (p : ℕ) → FillsBlocks manager → IsPool pool → pool.page_table p ≡ none → Fetched p
  unfolding fetch_page
  fetch_miss p fills v e =
      let f = free_frame 0 pool.pages in
      let room = v.room in
      let inside : f < length pool.pages = elim (free_frame_in_range 0 pool.pages) [
        | inl e ↦ omega arith
        | inr h ↦ omega arith
      ] in
      let (old, here) = get_elem?_in_range pool.pages f inside in
      let disk =
        if old.is_dirty
        then manager.write_block pool.disk old.page_id old.contents
        else pool.disk in
      let page : Page B = record {
        page_id = some p;
        is_dirty = false;
        contents = manager.read_block disk p old.contents;
      } in
      let length_page : length page.contents ≡ page_size =
        fills disk p old.contents (v.whole f old here) in
      let read : (g : ℕ)
          → get_elem? (set pool.pages f page) g
            ≡ (if f == g then some page else get_elem? pool.pages g) =
        λ g. get_elem?-set pool.pages f g page inside in
      (
        f,
        record {
          pages = set pool.pages f page;
          page_table = λ q. if q == p then some f else pool.page_table q;
          disk = disk;
        },
        page,
        rw (fetch_page, e, here) refl,
        record {
          room = rw length-set room;
          in_range = λ q g h. rw length-set (ground (arith, v.in_range q g));
          whole = λ g other h. ground (arith, read g, v.whole g other);
        },
        read f ∙ ground arith,
        ground arith,
        λ clean. (λ g other h. ground (arith, read g, clean g other), rw (clean f old here) refl),
      )

  fetch_lem : (p : ℕ) → FillsBlocks manager → IsPool pool → Fetched p
  fetch_lem p fills v = go (pool.page_table p) refl
    where
      go : (o : Option ℕ) → pool.page_table p ≡ o → Fetched p
      go none e = fetch_miss p fills v e
      go (some f) e = fetch_hit p f v e

pub data Call (T : Type 0) : Type 0 where
  get_call : ℕ → Call T
  put_call : ℕ → T → Call T

module _ {B D T : Type 0} (null_byte : B) (layout : Layout B T) (manager : DiskManager B D) where
  -- An element that lies within one page, whose number fits in an `int`.
  abbrev pub Fits : ℕ → Type 0
  Fits pos =
      (pos * layout.size < 2 ^ 43) × (pos * layout.size % page_size + layout.size ≤ page_size)

  abbrev pub AllFit : List (Call T) → Type 0
  AllFit [] = Unit
  AllFit (get_call pos ∷ calls) = Fits pos × AllFit calls
  AllFit (put_call pos v ∷ calls) = Fits pos × AllFit calls

  abbrev pub run : BufferPool B D → List (Call T) → Option (BufferPool B D)
  run pool [] = some pool
  run pool (get_call pos ∷ calls) = do
    (v, pool') ← get null_byte layout manager pool pos
    run pool' calls
  run pool (put_call pos v ∷ calls) = do
    pool' ← put null_byte layout manager pool pos v
    run pool' calls

  abbrev page : ℕ → ℕ
  page pos = pos * layout.size / page_size

  page_of_lem : (pos : ℕ) → Fits pos → page_of null_byte layout manager pos ≡ some (page pos)
  unfolding page_of
  page_of_lem pos (near, _) =
      let same : pos * layout.size % 2 ^ 64 / page_size % 2 ^ 32 ≡ pos * layout.size / page_size =
        omega arith in
      let small : ltb (pos * layout.size / page_size) (2 ^ 31) ≡ true = ground arith in
      rw (same, small) refl

  -- A pool in order, none of whose pages is marked as changed, with this disk.
  abbrev pub Unchanged : D → BufferPool B D → Type 0
  Unchanged disk pool = IsPool pool × IsClean pool × (pool.disk ≡ disk)

  module _ (pool : BufferPool B D) (pos : ℕ) (fills : FillsBlocks manager)
      (ok : Unchanged pool.disk pool) (fits : Fits pos) where
    get_lem :
        (v : T) × (pool' : BufferPool B D) × (get null_byte layout manager pool pos
          ≡ some (v, pool'))
        × Unchanged pool.disk pool'
    unfolding get
    get_lem =
        let offset = pos * layout.size % page_size in
        let same : pos * layout.size % 2 ^ 64 ≡ pos * layout.size = omega arith in
        let (f, pool1, page1, e, ok1, here, named, keeps) =
          fetch_lem manager pool (page pos) fills ok.0 in
        let whole = ok1.whole f page1 here in
        let in_page : leb (offset + layout.size) (length page1.contents) ≡ true = ground arith in
        (
          layout.from_bytes (take layout.size (drop offset page1.contents)),
          pool1,
          rw (page_of_lem pos fits, e, here, same, in_page) refl,
          (let (clean1, disk1) = keeps ok.1 in (ok1, clean1, disk1)),
        )

    -- `get` then returns what was put, and leaves the pool as it is.
    put_lem :
        (v : T)
        → (pool' : BufferPool B D) × (put null_byte layout manager pool pos v ≡ some pool')
          × (get null_byte layout manager pool' pos ≡ some (v, pool'))
          × Unchanged pool.disk pool'
    unfolding get put fetch_page
    put_lem v =
        let offset = pos * layout.size % page_size in
        let same : pos * layout.size % 2 ^ 64 ≡ pos * layout.size = omega arith in
        let (f, pool1, page1, e, ok1, here, named, keeps) =
          fetch_lem manager pool (page pos) fills ok.0 in
        let (clean1, disk1) = keeps ok.1 in
        let whole = ok1.whole f page1 here in
        let len = layout.length-to_bytes v in
        let bytes = patch null_byte page1.contents offset (layout.to_bytes v) in
        let page' : Page B = record page1 { contents = bytes } in
        let pool2 : BufferPool B D = record pool1 { pages = set pool1.pages f page' } in
        let in_page : leb (offset + layout.size) (length page1.contents) ≡ true = ground arith in
        let same_length : length bytes ≡ length page1.contents =
          ground (arith, length-patch null_byte page1.contents offset (layout.to_bytes v)) in
        let read : (g : ℕ)
            → get_elem? (set pool1.pages f page') g
              ≡ (if f == g then some page' else get_elem? pool1.pages g) =
          λ g. get_elem?-set pool1.pages f g page' (ok1.in_range (page pos) f named) in
        let found : get_elem? pool2.pages f ≡ some page' = read f ∙ ground arith in
        let again : fetch_page manager pool2 (page pos) ≡ some (f, pool2) =
          rw (fetch_page, named) refl in
        let back : take layout.size (drop offset bytes) ≡ layout.to_bytes v =
          span-patch null_byte page1.contents offset (layout.to_bytes v) layout.size len in
        (
          pool2,
          rw (page_of_lem pos fits, e, here, same, in_page) refl,
          rw
              (
                page_of_lem pos fits,
                again,
                found,
                same,
                same_length,
                in_page,
                back,
                layout.from_bytes-to_bytes,
              )
              refl,
          (
            record {
              room = rw length-set (ok1.room);
              in_range = λ q g h. rw length-set (ok1.in_range q g h);
              whole = λ g other h. ground (arith, read g, ok1.whole g other);
            },
            (λ g other k. ground (arith, read g, clean1 g other, clean1 f page1 here)),
            disk1,
          ),
        )

  -- On a pool in order of which no page is marked as changed, over a disk manager whose reads fill a
  -- page: any sequence of calls of `get` and `put` at elements that lie within one page, whose number
  -- fits in an `int`, is defined, leaves no page marked as changed, and leaves the disk as it was,
  -- although a `get` right after a `put` there returns what was put.
  pub put_never_written :
      (calls : List (Call T)) (pool : BufferPool B D)
      → FillsBlocks manager
      → IsPool pool
      → IsClean pool
      → AllFit calls
      → (pool' : BufferPool B D) × (run pool calls ≡ some pool')
        × IsClean pool'
        × (pool'.disk ≡ pool.disk)
        × ((pos : ℕ) (v : T)
            → Fits pos
            → (changed : BufferPool B D) × (put null_byte layout manager pool' pos v ≡ some changed)
              × (get null_byte layout manager changed pos ≡ some (v, changed))
              × IsClean changed
              × (changed.disk ≡ pool.disk))
  put_never_written [] pool fills ok clean fits = (
    pool,
    refl,
    clean,
    refl,
    λ pos v here.
        let (changed, e, g, (ok', clean', disk')) =
          put_lem pool pos fills (ok, clean, refl) here v in
        (changed, e, g, clean', disk'),
  )
  put_never_written (get_call pos ∷ calls) pool fills ok clean (here, fits) =
      let (v, pool1, e, (ok1, clean1, disk1)) = get_lem pool pos fills (ok, clean, refl) here in
      let (pool', run', clean', disk', more) =
        put_never_written calls pool1 fills ok1 clean1 fits in
      (
        pool',
        ap (λ o. o >>= λ x. run x.1 calls) e ∙ run',
        clean',
        disk' ∙ disk1,
        λ p w h. let (changed, q, g, c, d) = more p w h in (changed, q, g, c, d ∙ disk1),
      )
  put_never_written (put_call pos v ∷ calls) pool fills ok clean (here, fits) =
      let (pool1, e, g, (ok1, clean1, disk1)) = put_lem pool pos fills (ok, clean, refl) here v in
      let (pool', run', clean', disk', more) =
        put_never_written calls pool1 fills ok1 clean1 fits in
      (
        pool',
        ap (λ o. o >>= λ x. run x calls) e ∙ run',
        clean',
        disk' ∙ disk1,
        λ p w h. let (changed, q, g, c, d) = more p w h in (changed, q, g, c, d ∙ disk1),
      )
