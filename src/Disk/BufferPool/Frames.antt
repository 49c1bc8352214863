-- ===== src/Disk/BufferPool/Frames.antt =====
-- Which page the frame holds that `FetchPage` of src/disk/vector/buffer_pool.h returns.
use cpp_wtfsc.Base.{
  ℕ, suc, ◌+◌, ◌≤◌, ◌<◌, ◌≡◌, ◌≢◌, ◌⊎◌, inl, inr, refl, sym, ap, ◌∙◌, true, false, List, [], ◌∷◌,
  none, some, ◌==◌, get_elem?, set, length, if◌then◌else◌, arith, get_elem?_in_range, get_elem?-set,
}
use cpp_wtfsc.Disk.BufferPool.{Page, DiskManager, BufferPool, is_free, free_frame, fetch_page}

module _ {B : Type 0} where
  pub free_frame_in_range :
      (i : ℕ) (pages : List (Page B))
      → (free_frame i pages ≡ 0) ⊎ (free_frame i pages < i + length pages)
  unfolding free_frame
  free_frame_in_range i [] = inl refl
  free_frame_in_range i (page ∷ pages) = ground (arith, free_frame_in_range (i + 1) pages)

  free_frame_full :
      (i : ℕ) (pages : List (Page B))
      → ((j : ℕ) (page : Page B) → get_elem? pages j ≡ some page → is_free page ≡ false)
      → free_frame i pages ≡ 0
  unfolding free_frame
  free_frame_full i [] busy = refl
  free_frame_full i (page ∷ pages) busy =
      rw (busy 0 page refl) (free_frame_full (i + 1) pages (λ j. busy (suc j)))

module _ {B D : Type 0} (manager : DiskManager B D) (pool : BufferPool B D) where
  -- In a pool with a frame, a page that is not in the table is loaded into a frame, under its own number and clean, and is found
  -- there by the next call, which changes nothing. The frame is the first free one, or frame 0. Other frames and other entries are as before.
  pub fetch_page_miss :
      (p : ℕ)
      → 1 ≤ length pool.pages
      → pool.page_table p ≡ none
      → (f : ℕ) × (pool' : BufferPool B D) × (page : Page B) × (f ≡ free_frame 0 pool.pages)
        × (fetch_page manager pool p ≡ some (f, pool'))
        × (get_elem? pool'.pages f ≡ some page)
        × (page.page_id ≡ some p)
        × (page.is_dirty ≡ false)
        × (fetch_page manager pool' p ≡ some (f, pool'))
        × ((g : ℕ) → g ≢ f → get_elem? pool'.pages g ≡ get_elem? pool.pages g)
        × ((q : ℕ) → q ≢ p → pool'.page_table q ≡ pool.page_table q)
  unfolding fetch_page
  fetch_page_miss p room miss =
      let f = free_frame 0 pool.pages in
      let inside : f < length pool.pages = elim (free_frame_in_range 0 pool.pages) [
        | inl e ↦ omega arith
        | inr h ↦ omega arith
      ] in
      let (old, here) = get_elem?_in_range pool.pages f inside in
      let disk =
        if old.is_dirty
        then manager.write_block pool.disk old.page_id old.contents
        else pool.disk in
      let page : Page B = record {
        page_id = some p;
        is_dirty = false;
        contents = manager.read_block disk p old.contents;
      } in
      (
        f,
        record {
          pages = set pool.pages f page;
          page_table = λ q. if q == p then some f else pool.page_table q;
          disk = disk;
        },
        page,
        refl,
        rw (fetch_page, miss, here) refl,
        get_elem?-set pool.pages f f page inside ∙ ground arith,
        refl,
        refl,
        (let same : (p == p) ≡ true = ground arith in rw (fetch_page, same) refl),
        (λ g ne. get_elem?-set pool.pages f g page inside ∙ ground arith),
        (λ q ne. ground arith),
      )

  -- When no frame is free, a page that is not in the table is loaded over the page in frame 0, whose
  -- entry stays in the table: the next fetch of that page returns the frame with the other page in it.
  pub evicted_page_is_stale :
      (p q : ℕ)
      → 1 ≤ length pool.pages
      → ((j : ℕ) (page : Page B) → get_elem? pool.pages j ≡ some page → is_free page ≡ false)
      → pool.page_table p ≡ some 0
      → pool.page_table q ≡ none
      → (pool' : BufferPool B D) × (page : Page B) × (fetch_page manager pool q ≡ some (0, pool'))
        × (fetch_page manager pool' p ≡ some (0, pool'))
        × (get_elem? pool'.pages 0 ≡ some page)
        × (page.page_id ≡ some q)
  unfolding fetch_page
  evicted_page_is_stale p q room busy held miss =
      let (f, pool', page, where_to, run, there, name, _, _, _, others) =
        fetch_page_miss q room miss in
      let first : f ≡ 0 = where_to ∙ free_frame_full 0 pool.pages busy in
      let apart : p ≢ q = λ e. ground (arith, held, miss, ap pool.page_table e) in
      (
        pool',
        page,
        run ∙ ap (λ g. some (g, pool')) first,
        rw (fetch_page, others p apart ∙ held) refl,
        ap (get_elem? pool'.pages) (sym first) ∙ there,
        name,
      )
