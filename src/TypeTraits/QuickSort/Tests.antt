-- ===== src/TypeTraits/QuickSort/Tests.antt =====
-- The sort of src/type-traits/quicksort.cpp on a list of natural numbers.
use cpp_wtfsc.Base.{ℕ, ◌≡◌, ◌⊎◌, refl, true, List, [], ◌∷◌, some, ltb, ◌==◌, ==_iff, arith}
use cpp_wtfsc.TypeTraits.QuickSort.{Order, quick_sort}
use cpp_wtfsc.TypeTraits.QuickSort.Correct.{Sorts, quick_sort-Sorts}

by_size : (a b : ℕ) → (ltb a b ≡ true) ⊎ (((a == b) ≡ true) ⊎ (ltb b a ≡ true))
by_size a b = ground arith

abbrev naturals : Order ℕ
naturals = record {
  lt = ltb;
  beq = ◌==◌;
  beq_iff = ==_iff;
  irreflexive = λ a. ground arith;
  transitive = λ a b c h k. ground arith;
  total = by_size;
}

test-quick_sort : quick_sort naturals 5 (3 ∷ 5 ∷ 1 ∷ 3 ∷ 2 ∷ []) ≡ some (1 ∷ 2 ∷ 3 ∷ 3 ∷ 5 ∷ [])
unfolding quick_sort
test-quick_sort = refl

quick_sort-Sorts_example :
    (out : List ℕ) × (quick_sort naturals 5 (3 ∷ 5 ∷ 1 ∷ 3 ∷ 2 ∷ []) ≡ some out)
    × Sorts naturals (3 ∷ 5 ∷ 1 ∷ 3 ∷ 2 ∷ []) out
quick_sort-Sorts_example = quick_sort-Sorts naturals 5 (3 ∷ 5 ∷ 1 ∷ 3 ∷ 2 ∷ []) (omega arith)
