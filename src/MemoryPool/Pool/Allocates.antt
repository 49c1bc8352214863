-- ===== src/MemoryPool/Pool/Allocates.antt =====
-- `allocate` of src/memory_pool/MemoryPool.h hands out memory of its own.
use cpp_wtfsc.Base.{
  ℕ, ◌+◌, ◌-◌, ◌^◌, ◌≤◌, ◌<◌, ◌≡◌, inl, inr, refl, ◌∙◌, Bool, true, Bool-cases, List, ◌∷◌, some,
  ◌==◌, ltb, leb, if◌then◌else◌, arith,
}
use cpp_wtfsc.MemoryPool.Pool.{
  BlockHeader, UnitHeader, MemoryPool, ok, unit_header, add_size, sub_size, store,
  create_memory_block, provide, allocate_size,
}
use cpp_wtfsc.MemoryPool.Pool.Chain.{IsChain-same}
use cpp_wtfsc.MemoryPool.Pool.Units.{offset_of, end_of, IsPool, inside_still, new-ApartFrom}
use cpp_wtfsc.MemoryPool.Pool.Creates.{live_block, create_lem}

module _ (can_malloc : ℕ → Bool) (enough : (n : ℕ) → can_malloc n ≡ true) where
  -- The current block has room for a unit.
  record Provided (us : List UnitHeader) (size : ℕ) (pool' : MemoryPool) : Type 0 where
    pub in_order : IsPool pool' us
    pub block : BlockHeader
    pub here : pool'.blocks in_order.current ≡ some block
    pub room : block.offset + (unit_header + size) ≤ block.block_size

  created-Provided :
      (pool : MemoryPool) (us : List UnitHeader) (size n : ℕ)
      → IsPool pool us
      → n < 2 ^ 63
      → unit_header + size ≤ n
      → (pool' : MemoryPool) × (create_memory_block can_malloc pool n ≡ ok pool')
        × Provided us size pool'
  created-Provided pool us size n v h k =
      let (pool', e, c) = create_lem can_malloc enough pool us n v h in
      let room = c.room in
      let start = c.start in
      (
        pool',
        e,
        record { in_order = c.in_order; block = c.block; here = c.here; room = omega arith },
      )

  provide_run :
      (pool : MemoryPool) (size c : ℕ) (b : BlockHeader)
      → pool.current_block ≡ some c
      → pool.blocks c ≡ some b
      → provide can_malloc pool size ≡ (
          if ltb (add_size size unit_header) (sub_size b.block_size b.offset)
          then ok pool
          else if leb pool.default_block_size (add_size size unit_header)
          then create_memory_block can_malloc pool (add_size size unit_header)
          else create_memory_block can_malloc pool pool.default_block_size)
  unfolding provide
  provide_run pool size c b e here = rw (e, here) refl

  provide_lem :
      (pool : MemoryPool) (us : List UnitHeader) (size : ℕ)
      → IsPool pool us
      → size < 2 ^ 62
      → (pool' : MemoryPool) × (provide can_malloc pool size ≡ ok pool') × Provided us size pool'
  provide_lem pool us size v h =
      let (b, here, _) = live_block can_malloc enough pool v.current v.chain.ends in
      let filled : b.offset ≤ b.block_size = ground (arith, v.bounded v.current, here) in
      let small : b.block_size < 2 ^ 63 = ground (arith, v.sized v.current, here) in
      let run = provide_run pool size v.current b v.is_current here in
      let need : add_size size unit_header ≡ unit_header + size = omega arith in
      let left : sub_size b.block_size b.offset ≡ b.block_size - b.offset = omega arith in
      elim (Bool-cases (ltb (add_size size unit_header) (sub_size b.block_size b.offset))) [
        | inl t ↦ (
          pool,
          run ∙ rw t refl,
          record { in_order = v; block = b; here = here; room = ground arith },
        )
        | inr t ↦ elim (Bool-cases (leb pool.default_block_size (add_size size unit_header))) [
          | inl big ↦
              let (pool', e, p) =
                created-Provided pool us size (add_size size unit_header) v (omega arith)
                  (omega arith) in
              (pool', run ∙ rw (t, big) e, p)
          | inr fits ↦
              let d = v.small in
              let (pool', e, p) =
                created-Provided pool us size pool.default_block_size v d (ground arith) in
              (pool', run ∙ rw (t, fits) e, p)
        ]
      ]

  allocate_run :
      (pool pool' : MemoryPool) (size c : ℕ) (b : BlockHeader)
      → provide can_malloc pool size ≡ ok pool'
      → pool'.current_block ≡ some c
      → pool'.blocks c ≡ some b
      → allocate_size can_malloc pool size
        ≡ ok (
          record { container = c; position = b.offset; length = size },
          store pool' c (
              some (record b {
                allocated = b.allocated + 1;
                offset = add_size b.offset (add_size unit_header size);
              })),
        )
  unfolding allocate_size
  allocate_run pool pool' size c b e e1 here = rw e (rw (e1, here) refl)

  -- A pool that is in order stays so when a unit is allocated, as long as `malloc` succeeds and the size
  -- is below 2 ^ 62: the unit has that size, and lies with its header within its block, behind
  -- everything that the block holds, apart from all units in use.
  pub allocate_lem :
      (pool : MemoryPool) (us : List UnitHeader) (size : ℕ)
      → IsPool pool us
      → size < 2 ^ 62
      → (unit : UnitHeader) × (pool' : MemoryPool) × (block : BlockHeader) × (allocate_size
            can_malloc pool size
          ≡ ok (unit, pool'))
        × (unit.length ≡ size)
        × (pool'.blocks unit.container ≡ some block)
        × (end_of unit ≤ block.block_size)
        × IsPool pool' (unit ∷ us)
  allocate_lem pool us size v h =
      let (pool1, e, p) = provide_lem pool us size v h in
      let w = p.in_order in
      let b = p.block in
      let c = w.current in
      let here = p.here in
      let room = p.room in
      let filled : b.offset ≤ b.block_size = ground (arith, w.bounded c, here) in
      let small : b.block_size < 2 ^ 63 = ground (arith, w.sized c, here) in
      let sum : add_size b.offset (add_size unit_header size) ≡ b.offset + (unit_header + size) =
        omega arith in
      let unit : UnitHeader = record { container = c; position = b.offset; length = size } in
      let block : BlockHeader = record b {
        allocated = b.allocated + 1;
        offset = add_size b.offset (add_size unit_header size);
      } in
      let pool' = store pool1 c (some block) in
      let grown : (x : ℕ) → offset_of pool1 x ≤ offset_of pool' x = λ x. ground (arith, here) in
      let same : (c == c) ≡ true = ground arith in
      let now : pool'.blocks c ≡ some block = rw same refl in
      (
        unit,
        pool',
        block,
        allocate_run pool pool1 size c b e w.is_current here,
        refl,
        now,
        omega arith,
        record {
          first = w.first;
          current = c;
          is_first = w.is_first;
          is_current = w.is_current;
          chain = IsChain-same w.chain (λ z. ground (arith, here)) (λ z. ground (arith, here));
          fresh = λ x k. ground (arith, w.fresh x, here);
          bounded = λ x. ground (arith, w.bounded x, here);
          sized = λ x. ground (arith, w.sized x, here);
          counted = λ x. ground (arith, w.counted x, here);
          small = w.small;
          inside = (ground (arith, same), inside_still pool1 pool' us grown w.inside);
          apart = (new-ApartFrom pool1 unit us (ground (arith, here)) w.inside, w.apart);
        },
      )
