-- ===== src/LatchFree/Queue/Lost.antt =====
-- src/latch-free/queue.cpp with two threads that push, as in its `main`.
use cpp_wtfsc.Base.{ℕ, ◌≡◌, refl, [], ◌∷◌, arith}
use cpp_wtfsc.LatchFree.Queue.{
  Producer, System, create, load_tail, swap, store_next, store_tail, Reach, start, produce,
}
use cpp_wtfsc.LatchFree.Queue.Invariant.{Seg}

module _ {A : Type 0} (zero_value : A) where
  -- Two calls of `push` can both return while the queue holds the second value alone: no thread is in a
  -- call, both values were pushed, none was popped, and the nodes from `head` to `tail` hold one value.
  pub lost_push :
      (x y : A)
      → (s : System A) × Reach zero_value 2 0 s
        × (s.pushed ≡ x ∷ y ∷ [])
        × (s.popped ≡ [])
        × ((i : ℕ) → s.producers i ≡ Producer.idle)
        × Seg s.nodes (λ a. a) s.head (y ∷ []) s.tail
  lost_push x y = (
    _,
    produce 1 (omega arith)
        (produce 0 (omega arith)
          (produce 1 (omega arith)
            (produce 0 (omega arith)
              (produce 1 (omega arith)
                (produce 0 (omega arith)
                  (produce 1 (omega arith)
                    (produce 0 (omega arith)
                      (produce 1 (omega arith)
                        (produce 0 (omega arith) start (create x 1 refl refl))
                        (create y 2 refl refl))
                      (load_tail refl))
                    (load_tail refl))
                  (swap refl refl))
                (swap refl refl))
              (store_next refl refl))
            (store_next refl refl))
          (store_tail refl))
        (store_tail refl),
    refl,
    refl,
    λ i. ground arith,
    (2, refl, omega arith, refl),
  )
