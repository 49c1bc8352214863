-- ===== src/MemoryPool/Pool/Creates.antt =====
-- `createMemoryBlock` of src/memory_pool/MemoryPool.h, and the constructor.
use cpp_wtfsc.Base.{
  ℕ, suc, ◌^◌, ◌<◌, ◌≡◌, refl, Bool, true, false, List, [], Option, none, some, ◌==◌, if◌then◌else◌,
  arith,
}
use cpp_wtfsc.MemoryPool.Pool.{
  BlockHeader, UnitHeader, MemoryPool, ok, block_header, add_size, create_memory_block, init,
}
use cpp_wtfsc.MemoryPool.Pool.Chain.{IsChain, append-IsChain, IsChain-same}
use cpp_wtfsc.MemoryPool.Pool.Units.{next_of, prev_of, IsPool, inside_still}

pub alone-IsChain :
    (b : BlockHeader)
    → IsChain
        (λ x. elim (if x == 0 then some (record b { next = none }) else none) [
          | none ↦ none
          | some b ↦ some b.next
        ])
        (λ x. elim (if x == 0 then some (record b { prev = none }) else none) [
          | none ↦ none
          | some b ↦ some b.prev
        ])
        0
        0
alone-IsChain b = record {
  there = λ x h. ground arith;
  there' = λ x h. ground arith;
  forth = λ x y h. absurd (ground arith);
  back = λ x y h. absurd (ground arith);
  ends = refl;
  begins = refl;
  end_only = λ x h. ground arith;
  begin_only = λ x h. ground arith;
  grows = λ x y h. absurd (ground arith);
}

module _ (can_malloc : ℕ → Bool) (enough : (n : ℕ) → can_malloc n ≡ true) where
  -- A pool that is in order, whose current block is new and of some size.
  pub record Created (pool : MemoryPool) (us : List UnitHeader) (n : ℕ) (pool' : MemoryPool)
      : Type 0 where
    pub in_order : IsPool pool' us
    pub block : BlockHeader
    pub here : pool'.blocks in_order.current ≡ some block
    pub room : block.block_size ≡ n
    pub start : block.offset ≡ 0

  -- The pool with a new block behind the current one.
  abbrev extended : MemoryPool → ℕ → ℕ → BlockHeader → MemoryPool
  extended pool n c cb = record {
    blocks = λ x.
        if x == c
        then some (record cb { next = some pool.next_address })
        else (if x == pool.next_address
            then some (record {
              block_size = n;
              offset = 0;
              next = none;
              prev = some c;
              allocated = 0;
              deleted = 0;
            })
            else pool.blocks x);
    next_address = suc pool.next_address;
    first_block = pool.first_block;
    current_block = some pool.next_address;
    default_block_size = pool.default_block_size;
  }

  pub live_block :
      (pool : MemoryPool) (x : ℕ)
      → next_of pool x ≡ some none
      → (b : BlockHeader) × (pool.blocks x ≡ some b) × (b.next ≡ none)
  live_block pool x h = go (pool.blocks x) refl
    where
      go :
          (o : Option BlockHeader)
          → pool.blocks x ≡ o
          → (b : BlockHeader) × (pool.blocks x ≡ some b) × (b.next ≡ none)
      go none e = absurd (ground arith)
      go (some b) e = (b, e, ground arith)

  create_run :
      (pool : MemoryPool) (n f c : ℕ) (cb : BlockHeader)
      → pool.first_block ≡ some f
      → pool.current_block ≡ some c
      → pool.blocks c ≡ some cb
      → (c == pool.next_address) ≡ false
      → create_memory_block can_malloc pool n ≡ ok (extended pool n c cb)
  unfolding create_memory_block
  create_run pool n f c cb e1 e2 here other =
      rw (enough (add_size block_header n), e1, e2) (ground (arith, here, other))

  pub create_lem :
      (pool : MemoryPool) (us : List UnitHeader) (n : ℕ)
      → IsPool pool us
      → n < 2 ^ 63
      → (pool' : MemoryPool) × (create_memory_block can_malloc pool n ≡ ok pool')
        × Created pool us n pool'
  create_lem pool us n v h =
      let a = pool.next_address in
      let new : pool.blocks a ≡ none = v.fresh a (omega arith) in
      let (cb, here, last) = live_block pool v.current v.chain.ends in
      let other : (v.current == a) ≡ false = ground arith in
      let block : BlockHeader = record {
        block_size = n;
        offset = 0;
        next = none;
        prev = some v.current;
        allocated = 0;
        deleted = 0;
      } in
      let pool' : MemoryPool = extended pool n v.current cb in
      (
        pool',
        create_run pool n v.first v.current cb v.is_first v.is_current here other,
        record {
          in_order = record {
            first = v.first;
            current = a;
            is_first = v.is_first;
            is_current = refl;
            chain =
                IsChain-same
                  (append-IsChain (next_of pool) (prev_of pool) v.first v.current v.chain a
                    (rw (next_of, new) refl) (ground (arith, v.fresh v.current, here)))
                  (λ z. ground (arith, here)) (λ z. ground (arith, here));
            fresh = λ x k. ground (arith, v.fresh x);
            bounded = λ x. ground (arith, v.bounded x, here);
            sized = λ x. ground (arith, v.sized x, here);
            counted = λ x. ground (arith, v.counted x, here, new);
            small = v.small;
            inside = inside_still pool pool' us (λ x. ground (arith, here, new)) v.inside;
            apart = v.apart;
          };
          block = block;
          here = ground arith;
          room = refl;
          start = refl;
        },
      )

  -- A new pool has one block of the given size, and no unit in use.
  pub init-IsPool :
      (n : ℕ) → n < 2 ^ 63 → (pool : MemoryPool) × (init can_malloc n ≡ ok pool) × IsPool pool []
  unfolding init
  init-IsPool n h =
      let block : BlockHeader = record {
        block_size = n;
        offset = 0;
        next = none;
        prev = none;
        allocated = 0;
        deleted = 0;
      } in
      (
        record {
          blocks = λ x. if x == 0 then some block else none;
          next_address = 1;
          first_block = some 0;
          current_block = some 0;
          default_block_size = n;
        },
        rw (enough (add_size block_header n)) refl,
        record {
          first = 0;
          current = 0;
          is_first = refl;
          is_current = refl;
          chain = alone-IsChain block;
          fresh = λ a k. ground arith;
          bounded = λ x. ground arith;
          sized = λ x. ground arith;
          counted = λ x. ground arith;
          small = h;
          inside = tt;
          apart = tt;
        },
      )
