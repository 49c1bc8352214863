-- ===== src/MemoryPool/Pool.antt =====
-- The class MemoryPool of src/memory_pool/MemoryPool.h. A block is known by an address, and a unit by
-- its block and its position in it. `malloc` hands out a new address, and never one that was freed.
-- The header of a unit is what its user holds of it: nobody writes over it. `size_t` has 64 bits,
-- and its sums and differences wrap. Alignment is left out: a header may stand at any offset.
pub mod Chain
pub mod Units
pub mod Creates
pub mod Allocates
pub mod Links
pub mod Unlinks
pub mod Deallocates
pub mod Destroys
mod Tests
use cpp_wtfsc.Base.{
  ℕ, zero, suc, ◌+◌, ◌-◌, ◌*◌, ◌%◌, ◌^◌, Bool, true, false, not, ◌&&◌, ◌||◌, Option, none, some,
  ◌==◌, ltb, leb, if◌then◌else◌,
}

pub record BlockHeader : Type 0 where
  pub block_size : ℕ
  pub offset : ℕ
  pub next : Option ℕ
  pub prev : Option ℕ
  pub allocated : ℕ
  pub deleted : ℕ

pub record UnitHeader : Type 0 where
  pub container : ℕ
  pub position : ℕ
  pub length : ℕ

-- The blocks that are live, by their addresses, and the next address that `malloc` returns.
pub record MemoryPool : Type 0 where
  pub blocks : ℕ → Option BlockHeader
  pub next_address : ℕ
  pub first_block : Option ℕ
  pub current_block : Option ℕ
  pub default_block_size : ℕ

-- A value, the error that is thrown, or undefined behaviour: an access through a pointer that is null
-- or to a block that was freed.
pub data Result {ℓ} (A : Type ℓ) : Type ℓ where
  ok : A → Result A
  cannot_create_block : Result A
  undefined : Result A

infixl 5 ◌>>=◌
abbrev pub ◌>>=◌ {ℓ κ} : {A : Type ℓ} {B : Type κ} → Result A → (A → Result B) → Result B
ok a >>= f = f a
cannot_create_block >>= f = cannot_create_block
undefined >>= f = undefined

-- `sizeof(SMemoryBlockHeader)`, `sizeof(SMemoryUnitHeader)`
abbrev pub block_header : ℕ
block_header = 48

abbrev pub unit_header : ℕ
unit_header = 16

abbrev pub add_size : ℕ → ℕ → ℕ
add_size a b = (a + b) % 2 ^ 64

abbrev pub sub_size : ℕ → ℕ → ℕ
sub_size a b = (a + 2 ^ 64 - b) % 2 ^ 64

abbrev pub same_pointer : Option ℕ → Option ℕ → Bool
same_pointer none none = true
same_pointer (some a) (some b) = a == b
same_pointer _ _ = false

abbrev pub pointee : Option ℕ → Result ℕ
pointee none = undefined
pointee (some a) = ok a

abbrev pub deref : MemoryPool → ℕ → Result BlockHeader
deref pool a = elim (pool.blocks a) [ none ↦ undefined | some block ↦ ok block ]

-- A block with another header, and the pool without a block.
abbrev pub store : MemoryPool → ℕ → Option BlockHeader → MemoryPool
store pool a block = record pool { blocks = λ x. if x == a then block else pool.blocks x }

-- `a->next = p` and `a->prev = p`
abbrev pub set_next : MemoryPool → ℕ → Option ℕ → Result MemoryPool
set_next pool a p = do block ← deref pool a; ok (store pool a (some (record block { next = p })))

abbrev pub set_prev : MemoryPool → ℕ → Option ℕ → Result MemoryPool
set_prev pool a p = do block ← deref pool a; ok (store pool a (some (record block { prev = p })))

module _ (can_malloc : ℕ → Bool) where
  unfoldable pub create_memory_block : MemoryPool → ℕ → Result MemoryPool
  create_memory_block pool block_size =
      let a = pool.next_address in
      let fresh : Option ℕ → BlockHeader = λ p. record {
        block_size = block_size;
        offset = 0;
        next = none;
        prev = p;
        allocated = 0;
        deleted = 0;
      } in
      let made : Option ℕ → MemoryPool =
        λ p. record (store pool a (some (fresh p))) { next_address = suc a } in
      let linked = (do
        c ← pointee pool.current_block
        pool' ← set_next (made (some c)) c (some a)
        ok (record pool' { current_block = some a })) in
      let alone = ok (record (made none) { first_block = some a; current_block = some a }) in
      if can_malloc (add_size block_header block_size)
      then elim pool.first_block [ some f ↦ linked | none ↦ alone ]
      else cannot_create_block

  -- The constructor.
  unfoldable pub init : ℕ → Result MemoryPool
  unfolding create_memory_block
  init block_size =
      create_memory_block
        (record {
          blocks = λ a. none;
          next_address = 0;
          first_block = none;
          current_block = none;
          default_block_size = block_size;
        })
        block_size

  -- Which block the unit goes to: `currentBlock` of the result.
  unfoldable pub provide : MemoryPool → ℕ → Result MemoryPool
  unfolding create_memory_block
  provide pool size = do
    c ← pointee pool.current_block
    block ← deref pool c
    if ltb (add_size size unit_header) (sub_size block.block_size block.offset)
        then ok pool
        else if leb pool.default_block_size (add_size size unit_header)
        then create_memory_block pool (add_size size unit_header)
        else create_memory_block pool pool.default_block_size

  unfoldable pub allocate_size : MemoryPool → ℕ → Result (UnitHeader × MemoryPool)
  unfolding provide
  allocate_size pool size = do
    pool' ← provide pool size
    c ← pointee pool'.current_block
    block ← deref pool' c
    ok (
      record { container = c; position = block.offset; length = size },
      store pool' c (
          some (record block {
            allocated = block.allocated + 1;
            offset = add_size block.offset (add_size unit_header size);
          })),
    )

  -- `n` objects of some size each.
  unfoldable pub allocate : MemoryPool → ℕ → ℕ → Result (UnitHeader × MemoryPool)
  unfolding allocate_size
  allocate pool size_of n = allocate_size pool (n * size_of % 2 ^ 64)

-- The block takes note that a unit of it is not used any more.
unfoldable pub retire : BlockHeader → UnitHeader → BlockHeader
retire block unit =
    if block.offset == unit.position + unit_header + unit.length
    then record block {
      offset = sub_size block.offset (add_size unit_header unit.length);
      allocated = block.allocated - 1;
    }
    else record block { deleted = block.deleted + 1 }

-- A block is taken out of the chain and freed.
unfoldable pub unlink : MemoryPool → ℕ → BlockHeader → Result MemoryPool
unlink pool a block =
    let as_first = (do
      n ← pointee block.next
      pool' ← set_prev (record pool { first_block = block.next }) n none
      ok (store pool' a none)) in
    let as_current = (do
      p ← pointee block.prev
      pool' ← set_next (record pool { current_block = block.prev }) p none
      ok (store pool' a none)) in
    let between = (do
      p ← pointee block.prev
      pool' ← set_next pool p block.next
      n ← pointee block.next
      pool'' ← set_prev pool' n block.prev
      ok (store pool'' a none)) in
    if same_pointer (some a) pool.first_block
    then as_first
    else if same_pointer (some a) pool.current_block
    then as_current
    else between

unfoldable pub deallocate : MemoryPool → Option UnitHeader → Result MemoryPool
unfolding retire unlink
deallocate pool none = ok pool
deallocate pool (some unit) = do
  block ← deref pool unit.container
  let block' = retire block unit
  let pool' = store pool unit.container (some block')
  if not (same_pointer pool.current_block pool.first_block)
        && (block'.offset == 0 || block'.allocated == block'.deleted)
      then unlink pool' unit.container block'
      else ok pool'

-- The loop of the destructor, in a number of rounds; one that goes on is taken for undefined.
unfoldable pub free_from : ℕ → MemoryPool → Option ℕ → Result MemoryPool
free_from rounds pool none = ok pool
free_from zero pool (some a) = undefined
free_from (suc rounds) pool (some a) = do
  block ← deref pool a
  free_from rounds (store pool a none) block.next

-- The destructor. There are no more blocks than addresses that were given out.
unfoldable pub destroy : MemoryPool → Result MemoryPool
unfolding free_from
destroy pool = free_from pool.next_address pool pool.first_block

-- The move constructor: the new pool, and what is left of the other.
unfoldable pub move_pool : MemoryPool → MemoryPool × MemoryPool
move_pool other = (
  other,
  record other { first_block = none; current_block = none; default_block_size = 1024 * 1024 },
)
