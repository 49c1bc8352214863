-- ===== src/MemoryPool/Pool/Units.antt =====
-- When a pool of src/memory_pool/MemoryPool.h is in order, given the units that are in use.
use cpp_wtfsc.Base.{
  ℕ, suc, ◌+◌, ◌^◌, ◌≤◌, ◌<◌, ◌≡◌, ◌≢◌, ◌⊎◌, refl, List, [], ◌∷◌, ◌++◌, Option, none, some, ◌==◌,
  if◌then◌else◌, arith,
}
use cpp_wtfsc.MemoryPool.Pool.{UnitHeader, MemoryPool, unit_header}
use cpp_wtfsc.MemoryPool.Pool.Chain.{IsChain}

abbrev pub next_of : MemoryPool → ℕ → Option (Option ℕ)
next_of pool x = elim (pool.blocks x) [ none ↦ none | some b ↦ some b.next ]

abbrev pub prev_of : MemoryPool → ℕ → Option (Option ℕ)
prev_of pool x = elim (pool.blocks x) [ none ↦ none | some b ↦ some b.prev ]

-- How far a block is filled; 0 where there is no block.
abbrev pub offset_of : MemoryPool → ℕ → ℕ
offset_of pool x = elim (pool.blocks x) [ none ↦ 0 | some b ↦ b.offset ]

abbrev pub size_of : MemoryPool → ℕ → ℕ
size_of pool x = elim (pool.blocks x) [ none ↦ 0 | some b ↦ b.block_size ]

abbrev pub allocated_of : MemoryPool → ℕ → ℕ
allocated_of pool x = elim (pool.blocks x) [ none ↦ 0 | some b ↦ b.allocated ]

abbrev pub deleted_of : MemoryPool → ℕ → ℕ
deleted_of pool x = elim (pool.blocks x) [ none ↦ 0 | some b ↦ b.deleted ]

-- Where a unit ends.
abbrev pub end_of : UnitHeader → ℕ
end_of u = u.position + unit_header + u.length

-- Every unit lies in the filled part of its block.
abbrev pub AllInside : MemoryPool → List UnitHeader → Type 0
AllInside pool [] = Unit
AllInside pool (u ∷ us) = (end_of u ≤ offset_of pool u.container) × AllInside pool us

-- Two units that share no byte.
abbrev pub Apart : UnitHeader → UnitHeader → Type 0
Apart u v = (u.container ≢ v.container) ⊎ ((end_of u ≤ v.position) ⊎ (end_of v ≤ u.position))

abbrev pub ApartFrom : UnitHeader → List UnitHeader → Type 0
ApartFrom u [] = Unit
ApartFrom u (v ∷ us) = Apart u v × ApartFrom u us

abbrev pub AllApart : List UnitHeader → Type 0
AllApart [] = Unit
AllApart (u ∷ us) = ApartFrom u us × AllApart us

-- How many of the units lie in a block.
abbrev pub count_in : List UnitHeader → ℕ → ℕ
count_in [] x = 0
count_in (u ∷ us) x = if u.container == x then suc (count_in us x) else count_in us x

-- The blocks form a chain, none is filled beyond its size, and the units in use lie in them, apart from
-- each other; each block counts its units.
pub record IsPool (pool : MemoryPool) (us : List UnitHeader) : Type 0 where
  pub first : ℕ
  pub current : ℕ
  pub is_first : pool.first_block ≡ some first
  pub is_current : pool.current_block ≡ some current
  pub chain : IsChain (next_of pool) (prev_of pool) first current
  pub fresh : (a : ℕ) → pool.next_address ≤ a → pool.blocks a ≡ none
  pub bounded : (x : ℕ) → offset_of pool x ≤ size_of pool x
  pub sized : (x : ℕ) → size_of pool x < 2 ^ 63
  pub counted : (x : ℕ) → deleted_of pool x + count_in us x ≡ allocated_of pool x
  pub small : pool.default_block_size < 2 ^ 63
  pub inside : AllInside pool us
  pub apart : AllApart us

-- The filled parts only grow.
pub inside_still :
    (pool pool' : MemoryPool) (us : List UnitHeader)
    → ((x : ℕ) → offset_of pool x ≤ offset_of pool' x)
    → AllInside pool us
    → AllInside pool' us
inside_still pool pool' [] h v = tt
inside_still pool pool' (u ∷ us) h v =
    ((let k = h u.container in omega arith), inside_still pool pool' us h v.1)

-- A unit behind the filled part of its block is apart from all units in use.
pub new-ApartFrom :
    (pool : MemoryPool) (u : UnitHeader) (us : List UnitHeader)
    → offset_of pool u.container ≤ u.position
    → AllInside pool us
    → ApartFrom u us
new-ApartFrom pool u [] h v = tt
new-ApartFrom pool u (w ∷ us) h v = (ground arith, new-ApartFrom pool u us h v.1)

module _ (u : UnitHeader) (us : List UnitHeader) where
  front_inside :
      (pool : MemoryPool) (vs : List UnitHeader)
      → AllInside pool (vs ++ u ∷ us)
      → AllInside pool (u ∷ (vs ++ us))
  front_inside pool [] h = h
  front_inside pool (w ∷ vs) h = let (i, rest) = front_inside pool vs h.1 in (i, (h.0, rest))

  front-ApartFrom :
      (w : UnitHeader) (vs : List UnitHeader)
      → ApartFrom w (vs ++ u ∷ us)
      → Apart u w × ApartFrom w (vs ++ us)
  front-ApartFrom w [] h = (ground (arith, h.0), h.1)
  front-ApartFrom w (x ∷ vs) h = let (a, rest) = front-ApartFrom w vs h.1 in (a, (h.0, rest))

  front_apart : (vs : List UnitHeader) → AllApart (vs ++ u ∷ us) → AllApart (u ∷ (vs ++ us))
  front_apart [] h = h
  front_apart (w ∷ vs) h =
      let (a, rest) = front-ApartFrom w vs h.0 in
      let (from_u, all) = front_apart vs h.1 in ((a, from_u), (rest, all))

  front_count :
      (vs : List UnitHeader) (x : ℕ) → count_in (vs ++ u ∷ us) x ≡ count_in (u ∷ (vs ++ us)) x
  front_count [] x = refl
  front_count (w ∷ vs) x = ground (arith, front_count vs x)

  -- The order in which the units in use are listed does not matter.
  pub front-IsPool :
      (pool : MemoryPool) (vs : List UnitHeader)
      → IsPool pool (vs ++ u ∷ us)
      → IsPool pool (u ∷ (vs ++ us))
  front-IsPool pool vs v = record {
    first = v.first;
    current = v.current;
    is_first = v.is_first;
    is_current = v.is_current;
    chain = v.chain;
    fresh = v.fresh;
    bounded = v.bounded;
    sized = v.sized;
    counted = λ x. rw (← front_count vs x) (v.counted x);
    small = v.small;
    inside = front_inside pool vs v.inside;
    apart = front_apart vs v.apart;
  }
