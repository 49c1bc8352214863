-- ===== src/LatchFree/Queue/Tests.antt =====
-- Concrete runs of src/latch-free/queue.cpp.
use cpp_wtfsc.Base.{ℕ, ◌≡◌, ◌≤◌, ◌⊎◌, refl, true, List, [], ◌∷◌, ◌++◌, some, length, arith}
use cpp_wtfsc.LatchFree.Queue.{
  Producer, Consumer, System, create, load_tail, swap, store_next, store_tail, load_head, test_tail,
  load_next, store_head, Reach, start, produce, consume,
}
use cpp_wtfsc.LatchFree.Queue.Invariant.{is_some, next_at, Seg}
use cpp_wtfsc.LatchFree.Queue.Single.{single_fifo, single_no_fault}
use cpp_wtfsc.LatchFree.Queue.Lost.{lost_push}

abbrev Reached : Type 0
Reached = (s : System ℕ) × Reach 0 1 1 s

abbrev one_pushed : Reached
one_pushed = (
  _,
  produce 0 (omega arith)
      (produce 0 (omega arith)
        (produce 0 (omega arith)
          (produce 0 (omega arith) (produce 0 (omega arith) start (create 5 1 refl refl))
            (load_tail refl))
          (swap refl refl))
        (store_next refl refl))
      (store_tail refl),
)

-- The 5 is on its way out.
abbrev popping : Reached
popping = (
  _,
  consume 0 (omega arith)
      (consume 0 (omega arith)
        (consume 0 (omega arith) (consume 0 (omega arith) one_pushed.1 (load_head refl))
          (test_tail refl (λ e. absurd (omega arith))))
        (load_next refl refl refl))
      (store_head refl),
)

single_fifo_example :
    (flight queued : List ℕ) × (popping.0.pushed ≡ popping.0.popped ++ (flight ++ queued))
    × (length flight ≤ 1)
    × ((pos : ℕ → ℕ) × Seg popping.0.nodes pos popping.0.head queued popping.0.tail)
single_fifo_example = single_fifo popping.1

single_no_fault_example :
    ((x a t : ℕ)
      → (popping.0.producers 0 ≡ Producer.got_tail x a t)
        ⊎ (popping.0.producers 0 ≡ Producer.swapped x a t)
      → is_some (popping.0.nodes t) ≡ true)
    × ((h : ℕ)
        → popping.0.consumers 0 ≡ Consumer.not_empty h
        → (n : ℕ) × (next_at (popping.0.nodes h) ≡ some n))
    × ((h : ℕ) → popping.0.consumers 0 ≡ Consumer.unlinked h → is_some (popping.0.nodes h) ≡ true)
    × ((h x : ℕ) → popping.0.consumers 0 ≡ Consumer.copied h x → is_some (popping.0.nodes h) ≡ true)
single_no_fault_example = single_no_fault popping.1

lost_push_example :
    (s : System ℕ) × Reach 0 2 0 s
    × (s.pushed ≡ 8 ∷ 9 ∷ [])
    × (s.popped ≡ [])
    × ((i : ℕ) → s.producers i ≡ Producer.idle)
    × Seg s.nodes (λ a. a) s.head (9 ∷ []) s.tail
lost_push_example = lost_push 0 8 9
