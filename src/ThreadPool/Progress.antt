-- ===== src/ThreadPool/Progress.antt =====
-- The shutdown of a pool of src/thread-pool/thread_pool.h.
use cpp_wtfsc.Base.{ℕ, ◌+◌, ◌*◌, ◌≡◌, Bool, true, false, List, [], ◌∷◌, some, get_elem?, length}
use cpp_wtfsc.ThreadPool.{
  Worker, waiting, running, returned, Pool, Step, take_task, leave, complete, enqueue,
  enqueue_refused, set_stop,
}

module _ {T : Type 0} where
  -- A step of a worker, and not of a caller of the pool.
  abbrev pub is_worker_step : {p q : Pool T} → Step p q → Bool
  is_worker_step (enqueue task going) = false
  is_worker_step (enqueue_refused task stopped) = false
  is_worker_step (take_task i waits there) = true
  is_worker_step (leave i waits stopped empty) = true
  is_worker_step (complete i runs) = true
  is_worker_step set_stop = false

  -- The workers go on from one state to another.
  pub data WorkerSteps : Pool T → Pool T → Type 0 where
    no_step : {p : Pool T} → WorkerSteps p p
    then_step :
        {p q r : Pool T}
        → (st : Step p q) → is_worker_step st ≡ true
        → WorkerSteps q r
        → WorkerSteps p r

  -- What is still to do for one worker, and for a pool.
  abbrev rank : Worker T → ℕ
  rank waiting = 1
  rank (running x) = 2
  rank returned = 0

  abbrev ranks : List (Worker T) → ℕ
  ranks [] = 0
  ranks (w ∷ ws) = rank w + ranks ws

  abbrev remaining : Pool T → ℕ
  remaining p = 2 * length p.tasks + ranks p.workers

  -- The workers go on from a state to the end.
  abbrev pub AllReturned : Pool T → Type 0
  AllReturned p =
      (q : Pool T) × WorkerSteps p q
      × (q.stop ≡ true)
      × (q.submitted ≡ p.submitted)
      × ((i : ℕ) (w : Worker T) → get_elem? q.workers i ≡ some w → w ≡ returned)
