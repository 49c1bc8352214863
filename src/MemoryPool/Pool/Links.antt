-- ===== src/MemoryPool/Pool/Links.antt =====
-- What changes of a block's neighbours do to a pool of src/memory_pool/MemoryPool.h, and the calls that
-- make them.
use cpp_wtfsc.Base.{ℕ, ◌≡◌, ◌≢◌, refl, ◌∙◌, false, Option, none, some, ◌==◌, if◌then◌else◌, arith}
use cpp_wtfsc.MemoryPool.Pool.{
  BlockHeader, MemoryPool, ok, store, same_pointer, pointee, set_next, set_prev, unlink,
}
use cpp_wtfsc.MemoryPool.Pool.Units.{next_of, prev_of, offset_of, size_of, allocated_of, deleted_of}

-- What a pool says of a block apart from its place in the chain.
pub record Alike (pool pool' : MemoryPool) (z : ℕ) : Type 0 where
  pub offsets : offset_of pool z ≡ offset_of pool' z
  pub sizes : size_of pool z ≡ size_of pool' z
  pub allocations : allocated_of pool z ≡ allocated_of pool' z
  pub deletions : deleted_of pool z ≡ deleted_of pool' z
  pub absent : pool.blocks z ≡ none → pool'.blocks z ≡ none

pub Alike-trans : (p q r : MemoryPool) (z : ℕ) → Alike p q z → Alike q r z → Alike p r z
Alike-trans p q r z a b = record {
  offsets = a.offsets ∙ b.offsets;
  sizes = a.sizes ∙ b.sizes;
  allocations = a.allocations ∙ b.allocations;
  deletions = a.deletions ∙ b.deletions;
  absent = λ h. b.absent (a.absent h);
}

-- A block that gets another neighbour.
pub Alike-next :
    (pool : MemoryPool) (p : ℕ) (pb : BlockHeader) (q : Option ℕ)
    → pool.blocks p ≡ some pb
    → (z : ℕ) → Alike pool (store pool p (some (record pb { next = q }))) z
Alike-next pool p pb q h z = record {
  offsets = ground (arith, h);
  sizes = ground (arith, h);
  allocations = ground (arith, h);
  deletions = ground (arith, h);
  absent = λ k. ground (arith, h);
}

pub Alike-prev :
    (pool : MemoryPool) (p : ℕ) (pb : BlockHeader) (q : Option ℕ)
    → pool.blocks p ≡ some pb
    → (z : ℕ) → Alike pool (store pool p (some (record pb { prev = q }))) z
Alike-prev pool p pb q h z = record {
  offsets = ground (arith, h);
  sizes = ground (arith, h);
  allocations = ground (arith, h);
  deletions = ground (arith, h);
  absent = λ k. ground (arith, h);
}

pub Alike-gone : (pool : MemoryPool) (x z : ℕ) → z ≢ x → Alike pool (store pool x none) z
Alike-gone pool x z ne = record {
  offsets = ground arith;
  sizes = ground arith;
  allocations = ground arith;
  deletions = ground arith;
  absent = λ k. ground arith;
}

-- The neighbours of every block after such a change.
pub next_after_next :
    (pool : MemoryPool) (p : ℕ) (pb : BlockHeader) (q : Option ℕ)
    → pool.blocks p ≡ some pb
    → (z : ℕ)
    → next_of (store pool p (some (record pb { next = q }))) z
      ≡ (if z == p then some q else next_of pool z)
next_after_next pool p pb q h z = ground arith

pub prev_after_next :
    (pool : MemoryPool) (p : ℕ) (pb : BlockHeader) (q : Option ℕ)
    → pool.blocks p ≡ some pb
    → (z : ℕ) → prev_of (store pool p (some (record pb { next = q }))) z ≡ prev_of pool z
prev_after_next pool p pb q h z = ground (arith, h)

pub next_after_prev :
    (pool : MemoryPool) (p : ℕ) (pb : BlockHeader) (q : Option ℕ)
    → pool.blocks p ≡ some pb
    → (z : ℕ) → next_of (store pool p (some (record pb { prev = q }))) z ≡ next_of pool z
next_after_prev pool p pb q h z = ground (arith, h)

pub prev_after_prev :
    (pool : MemoryPool) (p : ℕ) (pb : BlockHeader) (q : Option ℕ)
    → pool.blocks p ≡ some pb
    → (z : ℕ)
    → prev_of (store pool p (some (record pb { prev = q }))) z
      ≡ (if z == p then some q else prev_of pool z)
prev_after_prev pool p pb q h z = ground arith

pub next_after_gone :
    (pool : MemoryPool) (x z : ℕ)
    → next_of (store pool x none) z ≡ (if z == x then none else next_of pool z)
next_after_gone pool x z = ground arith

pub prev_after_gone :
    (pool : MemoryPool) (x z : ℕ)
    → prev_of (store pool x none) z ≡ (if z == x then none else prev_of pool z)
prev_after_gone pool x z = ground arith

-- The two ends of the chain do not matter to it.
pub Alike-ends :
    (pool pool' : MemoryPool) (f c : Option ℕ) (z : ℕ)
    → Alike (record pool { first_block = f; current_block = c }) pool' z
    → Alike pool pool' z
Alike-ends pool pool' f c z a = record {
  offsets = a.offsets;
  sizes = a.sizes;
  allocations = a.allocations;
  deletions = a.deletions;
  absent = a.absent;
}

pub block_of :
    (pool : MemoryPool) (x : ℕ)
    → prev_of pool x ≢ none
    → (b : BlockHeader) × (pool.blocks x ≡ some b)
block_of pool x h = go (pool.blocks x) refl
  where
    go : (o : Option BlockHeader) → pool.blocks x ≡ o → (b : BlockHeader) × (pool.blocks x ≡ some b)
    go none e = absurd (h (rw (prev_of, e) refl))
    go (some b) e = (b, e)

pub block_of_next :
    (pool : MemoryPool) (x : ℕ)
    → next_of pool x ≢ none
    → (b : BlockHeader) × (pool.blocks x ≡ some b)
block_of_next pool x h = go (pool.blocks x) refl
  where
    go : (o : Option BlockHeader) → pool.blocks x ≡ o → (b : BlockHeader) × (pool.blocks x ≡ some b)
    go none e = absurd (h (rw (next_of, e) refl))
    go (some b) e = (b, e)

pub set_next_lem :
    (pool : MemoryPool) (p : ℕ) (pb : BlockHeader) (q : Option ℕ)
    → pool.blocks p ≡ some pb
    → set_next pool p q ≡ ok (store pool p (some (record pb { next = q })))
set_next_lem pool p pb q h = ground (arith, h)

pub set_prev_lem :
    (pool : MemoryPool) (p : ℕ) (pb : BlockHeader) (q : Option ℕ)
    → pool.blocks p ≡ some pb
    → set_prev pool p q ≡ ok (store pool p (some (record pb { prev = q })))
set_prev_lem pool p pb q h = ground (arith, h)

pub pointee_lem : (o : Option ℕ) (a : ℕ) → o ≡ some a → pointee o ≡ ok a
pointee_lem o a e = rw e refl

pub between_run :
    (pool : MemoryPool) (x : ℕ) (b : BlockHeader) (p n : ℕ) (pb nb : BlockHeader)
    → same_pointer (some x) pool.first_block ≡ false
    → same_pointer (some x) pool.current_block ≡ false
    → b.prev ≡ some p
    → b.next ≡ some n
    → pool.blocks p ≡ some pb
    → (store pool p (some (record pb { next = b.next }))).blocks n ≡ some nb
    → unlink pool x b
      ≡ ok (
          store
            (store
              (store pool p (some (record pb { next = b.next })))
              n
              (some (record nb { prev = b.prev })))
            x
            none)
unfolding unlink
between_run pool x b p n pb nb t1 t2 ep en hp hn =
    let go_on = set_next_lem pool p pb b.next hp in
    let go_back = set_prev_lem (store pool p (some (record pb { next = b.next }))) n nb b.prev hn in
    rw (t1, t2, pointee_lem b.prev p ep, go_on, pointee_lem b.next n en, go_back) refl
