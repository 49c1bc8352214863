-- ===== src/Hashmap.antt =====
-- `ConcurrentMap` of src/hashmap/concurrent_map.cpp: a vector of buckets whose number is fixed by the
-- constructor. `std::hash` is a parameter. With no bucket `% buckets_.size()` is undefined, and the
-- methods give `none`.
pub mod Buckets
pub mod Reference
pub mod Invariant
pub mod Refine
mod Tests
use Buckets.{Bucket}
use Reference.{Call}
use cpp_wtfsc.Base.{
  ℕ, ◌%◌, List, [], ◌∷◌, Option, none, some, ◌>>=◌, Eq, get_elem?, length, replicate,
}
use cpp_wtfsc.Base

pub record ConcurrentMap {ℓ} (K V : Type ℓ) : Type ℓ where
  pub buckets : List (Bucket K V)

-- The constructor: `n` empty buckets.
unfoldable pub init {ℓ} : {K V : Type ℓ} → ℕ → ConcurrentMap K V
init n = record { buckets = replicate n [] }

module _ {ℓ} {K V : Type ℓ} ⦃key : Eq K⦄ (hasher : K → ℕ) where
  -- The index that `get_bucket` computes, and the bucket that stands there.
  unfoldable pub get_bucket : ConcurrentMap K V → K → Option (ℕ × Bucket K V)
  get_bucket m k = do let i = hasher k % length m.buckets; b ← get_elem? m.buckets i; some (i, b)

  unfoldable pub get : ConcurrentMap K V → K → V → Option V
  get m k default_value = do (i, b) ← get_bucket m k; some (Buckets.get b k default_value)

  unfoldable pub set : ConcurrentMap K V → K → V → Option (ConcurrentMap K V)
  set m k v = do
    (i, b) ← get_bucket m k
    some (record m { buckets = Base.set m.buckets i (Buckets.set b k v) })

  unfoldable pub erase : ConcurrentMap K V → K → Option (ConcurrentMap K V)
  erase m k = do
    (i, b) ← get_bucket m k
    some (record m { buckets = Base.set m.buckets i (Buckets.erase b k) })

  -- A client's calls in order, with the results of the `get` calls.
  unfoldable pub run : ConcurrentMap K V → List (Call K V) → Option (List V)
  run m [] = some []
  run m (Call.get k d ∷ calls) = do v ← get m k d; vs ← run m calls; some (v ∷ vs)
  run m (Call.set k v ∷ calls) = do m' ← set m k v; run m' calls
  run m (Call.erase k ∷ calls) = do m' ← erase m k; run m' calls
