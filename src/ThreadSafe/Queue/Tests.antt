-- ===== src/ThreadSafe/Queue/Tests.antt =====
-- Concrete queues of src/thread-safe/queue.cpp.
use cpp_wtfsc.Base.{ℕ, ◌≡◌, refl, List, [], ◌∷◌, ◌++◌, Option, none, some, ◌>>=◌}
use cpp_wtfsc.ThreadSafe.Queue.{
  Node, Queue, node_at, empty_queue, push, try_pop, DummyQueue, dummy_push, blank, init,
}
use cpp_wtfsc.ThreadSafe.Queue.Plain.{push_after_drain}
use cpp_wtfsc.ThreadSafe.Queue.Dummy.{Holds}
use cpp_wtfsc.ThreadSafe.Queue.Concurrent.{
  System, Reach, begin, step, push_value, get_tail, answers, saw_tail, concurrent_fifo,
}

push_after_drain_example :
    ((heap : List (Option (Node ℕ))) (a : ℕ)
      → node_at heap a ≡ some (record { v = 4; next = none })
      → (q : Queue ℕ) × (try_pop (record { heap = heap; head = some a; tail = some a })
          ≡ some (some 4, q))
        × (push q 5 ≡ none))
    × ((push {A = ℕ} empty_queue 4 >>= λ q. try_pop q >>= λ out. push (out.1) 5) ≡ none)
push_after_drain_example = push_after_drain 4 5

abbrev two : DummyQueue ℕ
two = record {
  heap =
      some (record { value = some 4; link = some 1 })
      ∷ some (record { value = some 5; link = some 2 })
      ∷ some blank
      ∷ [];
  head = some 0;
  tail = 2;
}

two-Holds : Holds two (4 ∷ 5 ∷ [])
two-Holds = record { first = 0; heap_is = refl; head_is = refl; tail_is = refl }

abbrev one_queue : DummyQueue ℕ
one_queue = record {
  heap = some (record { value = some 7; link = some 1 }) ∷ some blank ∷ [];
  head = some 0;
  tail = 1;
}

pushed_once : dummy_push init 7 ≡ some one_queue
unfolding dummy_push init
pushed_once = refl

abbrev looked : System ℕ
looked = record { queue = one_queue; popper = saw_tail 1; pushed = 7 ∷ []; popped = [] }

looked-Reach : Reach looked
looked-Reach = step (step begin (push_value 7 pushed_once)) (get_tail refl)

concurrent_fifo_example :
    (out queued : List ℕ) × ([] ≡ answers out) × (7 ∷ [] ≡ out ++ queued) × Holds one_queue queued
concurrent_fifo_example = concurrent_fifo looked looked-Reach
