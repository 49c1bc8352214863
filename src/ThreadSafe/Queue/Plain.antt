-- ===== src/ThreadSafe/Queue/Plain.antt =====
-- `Queue` of src/thread-safe/queue.cpp where it runs empty.
use cpp_wtfsc.Base.{
  ℕ, zero, suc, ◌≡◌, refl, List, [], ◌∷◌, ◌++◌, Option, none, some, ◌>>=◌, set, arith,
}
use cpp_wtfsc.ThreadSafe.Queue.{Node, Queue, node_at, empty_queue, push, try_pop}

freed :
    {N : Type 0} (heap : List (Option N)) (a : ℕ) (n : N) (more : List (Option N))
    → node_at heap a ≡ some n
    → node_at (set heap a none ++ more) a ≡ none
freed [] a n more e = absurd (ground (arith, e))
freed (c ∷ heap) zero n more e = refl
freed (c ∷ heap) (suc a) n more e = freed heap a n more e

module _ {A : Type 0} where
  -- Whatever a queue with one node answers to `try_pop`, `tail_` is left at the node that was freed, and
  -- the next `push` writes to it. So a queue to which one value was pushed does not survive a pop and
  -- a second push.
  pub push_after_drain :
      (x y : A)
      → ((heap : List (Option (Node A))) (a : ℕ)
          → node_at heap a ≡ some (record { v = x; next = none })
          → (q : Queue A) × (try_pop (record { heap = heap; head = some a; tail = some a })
              ≡ some (some x, q))
            × (push q y ≡ none))
        × ((push empty_queue x >>= λ q. try_pop q >>= λ out. push (out.1) y) ≡ none)
  unfolding push try_pop empty_queue
  push_after_drain x y = (
    λ heap a e. (
      record { heap = set heap a none; head = none; tail = some a },
      rw e refl,
      rw (freed heap a _ (some (record { v = y; next = none }) ∷ []) e) refl,
    ),
    refl,
  )
