-- ===== src/Demo/LfuCache/Tables.antt =====
-- The two tables of src/demo/lfu.cpp as maps.
use cpp_wtfsc.Base.{
  ℕ, ◌+◌, ◌≡◌, refl, Bool-cases, inl, inr, List, [], ◌∷◌, none, some, length, if◌then◌else◌, ◌==◌,
  arith,
}
use cpp_wtfsc.Demo.LfuCache.{find, assign, discard}

-- A table has a key at most once.
abbrev pub Unique : List (ℕ × ℕ) → Type 0
Unique [] = Unit
Unique ((j, v) ∷ m) = (find m j ≡ none) × Unique m

pub find-assign :
    (m : List (ℕ × ℕ)) (k v j : ℕ) → find (assign m k v) j ≡ (if k == j then some v else find m j)
find-assign [] k v j = ground arith
find-assign ((a, b) ∷ m) k v j = ground (arith, find-assign m k v j)

pub find-discard :
    (m : List (ℕ × ℕ)) (k j : ℕ)
    → Unique m
    → find (discard m k) j ≡ (if k == j then none else find m j)
find-discard [] k j u = ground arith
find-discard ((a, b) ∷ m) k j u = ground (arith, u, find-discard m k j u.1)

pub Unique-assign : (m : List (ℕ × ℕ)) (k v : ℕ) → Unique m → Unique (assign m k v)
Unique-assign [] k v u = (refl, tt)
Unique-assign ((a, b) ∷ m) k v u = elim (Bool-cases (a == k)) [
  | inl e ↦ rw e (ground (arith, e, u.0), u.1)
  | inr e ↦ rw e (ground (arith, e, u.0, find-assign m k v a), Unique-assign m k v u.1)
]

pub Unique-discard : (m : List (ℕ × ℕ)) (k : ℕ) → Unique m → Unique (discard m k)
Unique-discard [] k u = tt
Unique-discard ((a, b) ∷ m) k u = elim (Bool-cases (a == k)) [
  | inl e ↦ rw e u.1
  | inr e ↦ rw e (ground (arith, u.0, find-discard m k a u.1), Unique-discard m k u.1)
]

pub length-assign_new :
    (m : List (ℕ × ℕ)) (k v : ℕ) → find m k ≡ none → length (assign m k v) ≡ length m + 1
length-assign_new [] k v e = refl
length-assign_new ((a, b) ∷ m) k v e = ground (arith, e, length-assign_new m k v)

pub length-assign_old :
    (m : List (ℕ × ℕ)) (k v i : ℕ) → find m k ≡ some i → length (assign m k v) ≡ length m
length-assign_old [] k v i e = absurd (ground (arith, e))
length-assign_old ((a, b) ∷ m) k v i e = ground (arith, e, length-assign_old m k v i)

pub length-discard :
    (m : List (ℕ × ℕ)) (k i : ℕ) → find m k ≡ some i → length m ≡ length (discard m k) + 1
length-discard [] k i e = absurd (ground (arith, e))
length-discard ((a, b) ∷ m) k i e = ground (arith, e, length-discard m k i)
