-- ===== src/MemoryPool/Vector/Calls.antt =====
-- Sequences of calls on a vector of src/memory_pool/Vector.h against lists.
use cpp_wtfsc.Base.{
  ℕ, ◌+◌, ◌^◌, ◌≤◌, ◌<◌, Bool, true, length-append, ◌≡◌, ◌⊎◌, inl, inr, refl, ap, List, [], ◌∷◌,
  length, replicate, ◌++◌, Option, none, some, ◌>>=◌, arith,
}
use cpp_wtfsc.MemoryPool.Vector.{
  Vector, outside, capacity, destroy, push_back, pop_back, clear, reserve, init_size, move_,
  copy_cells, destroy_cells, construct_cell,
}
use cpp_wtfsc.MemoryPool.Vector.Contents.{Holds}
use cpp_wtfsc.MemoryPool.Vector.Sequence.{
  push_back_lem, pop_back_lem, pop_back_empty, clear_lem, reserve_lem, destroy_lem, init_size_lem,
}

-- A call that changes a vector.
pub data Call (A : Type 0) : Type 0 where
  push_back_call : A → Call A
  pop_back_call : Call A
  clear_call : Call A
  reserve_call : ℕ → Call A

-- A list without its last element.
abbrev pub without_last : {A : Type 0} → List A → List A
without_last [] = []
without_last (x ∷ []) = []
without_last (x ∷ y ∷ xs) = x ∷ without_last (y ∷ xs)

-- What a call does to the list of objects.
abbrev pub meaning : {A : Type 0} → Call A → List A → List A
meaning (push_back_call x) xs = xs ++ x ∷ []
meaning pop_back_call xs = without_last xs
meaning clear_call xs = []
meaning (reserve_call n) xs = xs

module _ {A : Type 0} where
  abbrev pub call : Bool → Call A → Vector A → Option (Vector A)
  call lenient (push_back_call x) v = push_back lenient v (outside x)
  call lenient pop_back_call v = pop_back v
  call lenient clear_call v = clear v
  call lenient (reserve_call n) v = reserve lenient v n

  abbrev pub run : Bool → List (Call A) → Vector A → Option (Vector A)
  run lenient [] v = some v
  run lenient (c ∷ cs) v = call lenient c v >>= run lenient cs

  abbrev pub run_meaning : List (Call A) → List A → List A
  run_meaning [] xs = xs
  run_meaning (c ∷ cs) xs = run_meaning cs (meaning c xs)

  last_view :
      (xs : List A)
      → (xs ≡ []) ⊎ ((ys : List A) × (y : A) × (xs ≡ ys ++ y ∷ []) × (without_last xs ≡ ys))
  last_view [] = inl refl
  last_view (x ∷ []) = inr ([], x, refl, refl)
  last_view (x ∷ y ∷ xs) = elim (last_view (y ∷ xs)) [
    | inl e ↦ inr ([], x, ap (◌∷◌ x) e, ap (λ l. without_last (x ∷ l)) e)
    | inr (ys, z, e, f) ↦ inr (x ∷ ys, z, ap (◌∷◌ x) e, ap (◌∷◌ x) f)
  ]

  pop_step :
      (v : Vector A) (xs : List A)
      → Holds v xs
      → 1 ≤ capacity v
      → (w : Vector A) × (pop_back v ≡ some w) × Holds w (without_last xs) × (1 ≤ capacity w)
  pop_step v xs h room = elim (last_view xs) [
    | inl e ↦ (v, pop_back_empty v (rw e at h), rw e (rw e at h), room)
    | inr (ys, y, e, f) ↦
        let (w, run_eq, holds, c) = pop_back_lem v ys y (rw e at h) in
        (w, run_eq, rw f holds, omega arith)
  ]

  length-without_last : (xs : List A) → length (without_last xs) ≤ length xs
  length-without_last [] = omega arith
  length-without_last (x ∷ []) = omega arith
  length-without_last (x ∷ y ∷ xs) = let r = length-without_last (y ∷ xs) in omega arith

  length-meaning : (c : Call A) (xs : List A) → length (meaning c xs) ≤ length xs + 1
  length-meaning (push_back_call x) xs = let l = length-append xs (x ∷ []) in omega arith
  length-meaning pop_back_call xs = let l = length-without_last xs in omega arith
  length-meaning clear_call xs = omega arith
  length-meaning (reserve_call n) xs = omega arith

  call_step :
      (c : Call A) (v : Vector A) (xs : List A)
      → Holds v xs
      → length xs < 2 ^ 31
      → 1 ≤ capacity v
      → (w : Vector A) × (call true c v ≡ some w) × Holds w (meaning c xs) × (1 ≤ capacity w)
  call_step (push_back_call x) v xs h small room =
      let (w, e, holds, c) = push_back_lem v xs x h small room in (w, e, holds, ground arith)
  call_step pop_back_call v xs h small room = pop_step v xs h room
  call_step clear_call v xs h small room =
      let (w, e, holds, c) = clear_lem v xs h in (w, e, holds, ground arith)
  call_step (reserve_call n) v xs h small room =
      let (w, e, holds, c) = reserve_lem v xs n h small in (w, e, holds, ground arith)

  -- Where the allocator's `deallocate` takes the count 1 for a block of any size, every sequence of
  -- `push_back`, `pop_back`, `clear` and `reserve` on a vector with a block is defined, if no
  -- `push_back` gets an element of the vector itself and there are fewer than 2 ^ 31 objects and calls
  -- together; and the vector then holds what the same calls leave of the list of its objects. The
  -- destructor then is defined as well, and leaves no object in the block that it gives back.
  pub run_refines_list :
      (cs : List (Call A)) (v : Vector A) (xs : List A)
      → Holds v xs
      → length xs + length cs < 2 ^ 31
      → 1 ≤ capacity v
      → (w : Vector A) × (run true cs v ≡ some w)
        × Holds w (run_meaning cs xs)
        × (1 ≤ capacity w)
        × (destroy true w ≡ some (replicate (capacity w) none))
  run_refines_list [] v xs h few room = (v, refl, h, room, destroy_lem v xs h)
  run_refines_list (c ∷ cs) v xs h few room =
      let (v', e, h', room') = call_step c v xs h (omega arith) room in
      let (w, f, holds, room'', freed) =
        run_refines_list cs v' (meaning c xs) h' (omega (arith, length-meaning c xs)) room' in
      (w, rw e f, holds, room'', freed)

no_cells : {A : Type 0} (cells : List (Option A)) → length cells ≡ 0 → cells ≡ []
no_cells [] e = refl
no_cells (c ∷ cells) e = absurd (omega arith)

nowhere :
    {A : Type 0} (v : Vector A) (x : A)
    → v.cells ≡ []
    → v.last ≡ 0
    → push_back true v (outside x) ≡ none
unfolding push_back copy_cells destroy_cells construct_cell
nowhere v x e f = rw (e, f) refl

-- A vector whose block has no cell constructs behind the block when it is pushed to. Such a vector is
-- what `Vector(0)` makes, and what is left of a vector that was moved from.
push_back_no_block :
    {A : Type 0} (value x : A)
    → ((v : Vector A) → Holds v [] → capacity v ≡ 0 → push_back true v (outside x) ≡ none)
      × ((v : Vector A) → init_size value 0 ≡ some v → push_back true v (outside x) ≡ none)
      × ((v : Vector A) → push_back true ((move_ v).1) (outside x) ≡ none)
unfolding move_ capacity
push_back_no_block {A} value x = (
  λ v h c. nowhere v x (no_cells v.cells c) h.last_is,
  λ v e.
      let (w, f, h, c) = init_size_lem value 0 (omega arith) in
      let same : w ≡ v = ground (arith, e, f) in
      nowhere v x (no_cells v.cells (rw same at c)) (rw same at h.last_is),
  λ v. nowhere (record { cells = []; last = 0 }) x refl refl,
)
