-- ===== src/MemoryPool/Pool/Tests.antt =====
-- A concrete pool of src/memory_pool/MemoryPool.h with two units in one block.
use cpp_wtfsc.Base.{
  ℕ, ◌≤◌, ◌≡◌, inl, inr, refl, true, none, some, [], ◌∷◌, ◌==◌, if◌then◌else◌, arith,
}
use cpp_wtfsc.MemoryPool.Pool.{
  BlockHeader, UnitHeader, MemoryPool, ok, create_memory_block, provide, allocate_size, retire,
  unlink, deallocate, free_from, destroy, move_pool,
}
use cpp_wtfsc.MemoryPool.Pool.Units.{IsPool, end_of}
use cpp_wtfsc.MemoryPool.Pool.Creates.{alone-IsChain}
use cpp_wtfsc.MemoryPool.Pool.Allocates.{allocate_lem}
use cpp_wtfsc.MemoryPool.Pool.Deallocates.{deallocate_lem}
use cpp_wtfsc.MemoryPool.Pool.Destroys.{destroy_lem}

abbrev half_full : BlockHeader
half_full = record {
  block_size = 100;
  offset = 44;
  next = none;
  prev = none;
  allocated = 2;
  deleted = 0;
}

abbrev pool : MemoryPool
pool = record {
  blocks = λ x. if x == 0 then some half_full else none;
  next_address = 1;
  first_block = some 0;
  current_block = some 0;
  default_block_size = 100;
}

abbrev unit_a : UnitHeader
unit_a = record { container = 0; position = 0; length = 8 }

abbrev unit_b : UnitHeader
unit_b = record { container = 0; position = 24; length = 4 }

pool-IsPool : IsPool pool (unit_a ∷ unit_b ∷ [])
pool-IsPool = record {
  first = 0;
  current = 0;
  is_first = refl;
  is_current = refl;
  chain = alone-IsChain half_full;
  fresh = λ a h. ground arith;
  bounded = λ x. ground arith;
  sized = λ x. ground arith;
  counted = λ x. ground arith;
  small = omega arith;
  inside = (omega arith, (omega arith, tt));
  apart = ((inr (inl (omega arith)), tt), (tt, tt));
}

-- 40 bytes do not fit behind offset 44 with their header, so a second block is made.
test_second_block :
    (p : MemoryPool) × (allocate_size (λ n. true) pool 40
      ≡ ok (record { container = 1; position = 0; length = 40 }, p))
    × (p.current_block ≡ some 1)
unfolding allocate_size provide create_memory_block
test_second_block = (_, refl, refl)

-- The last unit gives its room back, another one does not.
test_last :
    (p : MemoryPool) × (deallocate pool (some unit_b) ≡ ok p)
    × (p.blocks 0 ≡ some (record half_full { offset = 24; allocated = 1 }))
unfolding deallocate retire unlink
test_last = (_, refl, refl)

allocate_lem_example :
    (unit : UnitHeader) × (pool' : MemoryPool) × (block : BlockHeader) × (allocate_size
        (λ n. true)
        pool
        40
      ≡ ok (unit, pool'))
    × (unit.length ≡ 40)
    × (pool'.blocks unit.container ≡ some block)
    × (end_of unit ≤ block.block_size)
    × IsPool pool' (unit ∷ unit_a ∷ unit_b ∷ [])
allocate_lem_example =
    allocate_lem (λ n. true) (λ n. refl) pool (unit_a ∷ unit_b ∷ []) 40 pool-IsPool (omega arith)

deallocate_lem_example :
    (pool' : MemoryPool) × (deallocate pool (some unit_b) ≡ ok pool') × IsPool pool' (unit_a ∷ [])
deallocate_lem_example = deallocate_lem pool (unit_a ∷ []) unit_b [] pool-IsPool

destroy_lem_example :
    (pool' : MemoryPool) × (destroy pool ≡ ok pool') × ((x : ℕ) → pool'.blocks x ≡ none)
destroy_lem_example = destroy_lem pool (unit_a ∷ unit_b ∷ []) pool-IsPool

-- A pool that was moved from has no block to free.
test_moved_from :
    (p : MemoryPool) × (destroy (let (_, rest) = move_pool pool in rest) ≡ ok p)
    × (p.blocks 0 ≡ some half_full)
unfolding destroy free_from move_pool
test_moved_from = (_, refl, refl)
