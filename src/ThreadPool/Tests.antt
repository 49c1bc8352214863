-- ===== src/ThreadPool/Tests.antt =====
-- A pool of src/thread-pool/thread_pool.h with one worker and one task.
use cpp_wtfsc.Base.{ℕ, zero, suc, ◌+◌, ◌≡◌, refl, true, [], ◌∷◌, ◌++◌, some, get_elem?, arith}
use cpp_wtfsc.ThreadPool.{
  Worker, running, returned, Pool, init, enqueue, take_task, leave, complete, set_stop, Reach,
  begin, step,
}
use cpp_wtfsc.ThreadPool.Safety.{weigh, in_hand, pool_in_order, pool_joined}

abbrev stopping : Pool ℕ
stopping = record {
  workers = running 5 ∷ [];
  tasks = 6 ∷ [];
  stop = true;
  submitted = 5 ∷ 6 ∷ [];
  taken = 5 ∷ [];
  completed = [];
}

stopping-Reach : Reach 1 stopping
unfolding init
stopping-Reach =
    step (step (step (step begin (enqueue 5 refl)) (take_task 0 refl refl)) (enqueue 6 refl))
      set_stop

abbrev joined : Pool ℕ
joined = record {
  workers = returned ∷ [];
  tasks = [];
  stop = true;
  submitted = 5 ∷ 6 ∷ [];
  taken = 5 ∷ 6 ∷ [];
  completed = 6 ∷ 5 ∷ [];
}

joined-Reach : Reach 1 joined
joined-Reach =
    step
      (step (step (step stopping-Reach (complete 0 refl)) (take_task 0 refl refl))
        (complete 0 refl))
      (leave 0 refl refl refl)

joined_all : (i : ℕ) (w : Worker ℕ) → get_elem? (returned ∷ []) i ≡ some w → w ≡ returned
joined_all zero w e = ground (arith, e)
joined_all (suc i) w e = absurd (ground (arith, e))

pool_in_order_example :
    (stopping.taken ++ stopping.tasks ≡ stopping.submitted)
    × ((f : ℕ → ℕ) → weigh f [] + in_hand f (running 5 ∷ []) ≡ weigh f (5 ∷ []))
pool_in_order_example = pool_in_order 1 stopping stopping-Reach

pool_joined_example :
    (joined.tasks ≡ [])
    × (joined.taken ≡ joined.submitted)
    × ((f : ℕ → ℕ) → weigh f (6 ∷ 5 ∷ []) ≡ weigh f (5 ∷ 6 ∷ []))
pool_joined_example = pool_joined 1 joined joined-Reach (omega arith) joined_all
