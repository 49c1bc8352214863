-- ===== src/ThreadPool.antt =====
-- `ThreadPool` of src/thread-pool/thread_pool.h. Each step is one critical section under `queue_mutex`,
-- or the end of a task. A waiting worker may look at its condition at any time, so a lost wake-up is
-- a step that is only delayed.
pub mod Progress
pub mod Safety
mod Tests
use cpp_wtfsc.Base.{
  ℕ, zero, suc, ◌+◌, ◌≡◌, Bool, true, false, List, [], ◌∷◌, ◌++◌, Option, none, some, get_elem?,
  set, replicate,
}

-- Where a worker is in its loop: before its critical section, in a task, or returned.
pub data Worker (T : Type 0) : Type 0 where
  waiting : Worker T
  running : T → Worker T
  returned : Worker T

-- The pool, and the tasks that were submitted, taken and completed so far.
pub record Pool (T : Type 0) : Type 0 where
  pub workers : List (Worker T)
  pub tasks : List T
  pub stop : Bool
  pub submitted : List T
  pub taken : List T
  pub completed : List T

unfoldable pub init : {T : Type 0} → ℕ → Pool T
init threads = record {
  workers = replicate threads waiting;
  tasks = [];
  stop = false;
  submitted = [];
  taken = [];
  completed = [];
}

pub data Step {T : Type 0} (p : Pool T) : Pool T → Type 0 where
  enqueue :
      (task : T)
      → p.stop ≡ false
      → Step p (record p { tasks = p.tasks ++ task ∷ []; submitted = p.submitted ++ task ∷ [] })
  -- `enqueue` throws on a stopped pool.
  enqueue_refused : (task : T) → p.stop ≡ true → Step p p
  take_task :
      (i : ℕ) {task : T} {rest : List T}
      → get_elem? p.workers i ≡ some waiting
      → p.tasks ≡ task ∷ rest
      → Step p (record p {
        workers = set p.workers i (running task);
        tasks = rest;
        taken = p.taken ++ task ∷ [];
      })
  leave :
      (i : ℕ)
      → get_elem? p.workers i ≡ some waiting
      → p.stop ≡ true
      → p.tasks ≡ []
      → Step p (record p { workers = set p.workers i returned })
  complete :
      (i : ℕ) {task : T}
      → get_elem? p.workers i ≡ some (running task)
      → Step p (record p { workers = set p.workers i waiting; completed = task ∷ p.completed })
  -- The destructor.
  set_stop : Step p (record p { stop = true })

pub data Reach {T : Type 0} (threads : ℕ) : Pool T → Type 0 where
  begin : Reach threads (init threads)
  step : {p q : Pool T} → Reach threads p → Step p q → Reach threads q
