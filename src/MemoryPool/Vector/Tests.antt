-- ===== src/MemoryPool/Vector/Tests.antt =====
-- Concrete vectors of src/memory_pool/Vector.h.
use cpp_wtfsc.Base.{ℕ, ◌≤◌, ◌≡◌, refl, [], ◌∷◌, true, false, none, some, replicate, arith}
use cpp_wtfsc.MemoryPool.Vector.{
  Vector, outside, element, capacity, destroy, init_list, assign_cells, push_back, copy_cells,
  destroy_cells, construct_cell, destroy_cell, read,
}
use cpp_wtfsc.MemoryPool.Vector.Contents.{Holds}
use cpp_wtfsc.MemoryPool.Vector.Calls.{
  push_back_call, pop_back_call, reserve_call, run, run_refines_list,
}

abbrev two : Vector ℕ
two = record { cells = some 4 ∷ some 5 ∷ []; last = 2 }

two-Holds : Holds two (4 ∷ 5 ∷ [])
two-Holds = record { free = 0; cells_are = refl; last_is = refl }

room : 1 ≤ capacity two
unfolding capacity
room = omega arith

test-push_back :
    push_back true two (outside 6)
    ≡ some (record { cells = some 4 ∷ some 5 ∷ some 6 ∷ none ∷ []; last = 3 })
unfolding push_back copy_cells destroy_cells construct_cell read destroy_cell
test-push_back = refl

run_refines_list_example :
    (w : Vector ℕ) × (run true
        (push_back_call 6 ∷ pop_back_call ∷ reserve_call 9 ∷ push_back_call 7 ∷ [])
        two
      ≡ some w)
    × Holds w (4 ∷ 5 ∷ 7 ∷ [])
    × (1 ≤ capacity w)
    × (destroy true w ≡ some (replicate (capacity w) none))
run_refines_list_example =
    run_refines_list (push_back_call 6 ∷ pop_back_call ∷ reserve_call 9 ∷ push_back_call 7 ∷ []) two
      (4 ∷ 5 ∷ []) two-Holds (omega arith) room

-- The block is full, so `v.push_back(v.at(0))` copies an element of the block that was given back.
test_own_element : push_back true two (element 0) ≡ none
unfolding push_back copy_cells destroy_cells construct_cell read destroy_cell
test_own_element = refl

-- `std::allocator` does not take the count 1 for two cells.
test_count : push_back false two (outside 6) ≡ none
unfolding push_back copy_cells destroy_cells construct_cell read destroy_cell
test_count = refl

-- `Vector{4, 5}` assigns to a cell that holds no object.
test_init_list : init_list {A = ℕ} (4 ∷ 5 ∷ []) ≡ none
unfolding init_list assign_cells read
test_init_list = refl
