-- ===== src/ThreadSafe/ConcurrentList/Tests.antt =====
-- Concrete runs of src/thread-safe/list.cpp.
use cpp_wtfsc.Base.{ℕ, ◌≡◌, ◌≢◌, ◌⊎◌, refl, true, false, [], ◌∷◌, none, some, ◌==◌, leb, arith}
use cpp_wtfsc.ThreadSafe.ConcurrentList.{
  Task, remove_if, Thread, System, Step, push_front, begin, read_next, lock_next, unlink,
  unlock_next, Reach, start, step,
}
use cpp_wtfsc.ThreadSafe.ConcurrentList.Invariant.{next_of, is_some, detached, holds}
use cpp_wtfsc.ThreadSafe.ConcurrentList.Contents.{Contents, Runs}
use cpp_wtfsc.ThreadSafe.ConcurrentList.Safety.{nodes_locked, delete_unseen}
use cpp_wtfsc.ThreadSafe.ConcurrentList.Progress.{Goes, Opens, list_progress}
use cpp_wtfsc.ThreadSafe.ConcurrentList.Calls.{begun, Ends, calls_end}

abbrev Reached : Type 0
Reached = (s : System ℕ) × Reach s

abbrev one_value : Reached
one_value = (_, step start (push_front 0 7 1 refl refl refl refl))

abbrev two_values : Reached
two_values = (_, step one_value.1 (push_front 5 8 2 refl refl refl refl))

two_values-Contents : Contents two_values.0.nodes 0 (8 ∷ 7 ∷ [])
two_values-Contents = (2, refl, refl, (1, refl, refl, refl))

-- Thread 3 removes the 7.
calls_end_example :
    Step two_values.0 (begun two_values.0 3 (remove_if (λ x. x == 7)))
    × ((t : System ℕ)
        → Runs 3 (begun two_values.0 3 (remove_if (λ x. x == 7))) t
        → Ends 3 t none (8 ∷ []))
calls_end_example =
    calls_end two_values.1 3 (remove_if (λ x. x == 7)) (8 ∷ 7 ∷ []) refl (λ a. ground arith)
      two_values-Contents

-- Thread 3 has taken out the node of the 8 and is about to delete it.
abbrev deleting : Reached
deleting = (
  _,
  step
      (step
        (step
          (step (step two_values.1 (begin 3 (remove_if (λ x. leb 8 x)) refl refl))
            (read_next 3 refl refl refl))
          (lock_next 3 refl refl))
        (unlink 3 refl refl refl refl refl))
      (unlock_next 3 refl),
)

delete_unseen_example :
    ((j : ℕ)
      → (holds (deleting.0.threads j) 2 ≡ false)
        × ((task : Task ℕ) (c : ℕ) → deleting.0.threads j ≢ Thread.reached task c 2)
        × (detached (deleting.0.threads j) ≡ some 2 → 3 ≡ j))
    × ((a : ℕ) → next_of (deleting.0.nodes a) ≢ some 2)
delete_unseen_example = delete_unseen deleting.1 3 (λ x. leb 8 x) 0 2 refl

nodes_locked_example :
    (holds (deleting.0.threads 3) 0 ≡ true
      → (is_some (deleting.0.nodes 0) ≡ true)
        × ((j : ℕ) → holds (deleting.0.threads j) 0 ≡ true → 3 ≡ j))
    × ((task : Task ℕ) (cur : ℕ)
        → deleting.0.threads 3 ≡ Thread.reached task cur 0
        → is_some (deleting.0.nodes 0) ≡ true)
nodes_locked_example = nodes_locked deleting.1 3 0

list_progress_example :
    ((i : ℕ) → deleting.0.threads i ≢ Thread.idle → (j : ℕ) × Goes deleting.0 j)
    × (((j : ℕ) × Goes deleting.0 j) ⊎ Opens deleting.0)
list_progress_example = list_progress deleting.1
