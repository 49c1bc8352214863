-- ===== src/ThreadSafe/ConcurrentList.antt =====
-- `ConcurrentList` of src/thread-safe/list.cpp with any number of threads. Each step is one access to
-- a mutex or to a node; `push_front`, whose accesses are all under the lock of `head_`, is one step.
-- A thread that waits for the mutex of `head_` has not begun its call, and is idle.
-- Nodes have addresses, `head_` is at 0, and the address of a deleted node may be used again.
mod Invariant
mod Moves
mod Links
mod Pushes
mod Keeps
mod Progress
mod Alone
mod Rounds
mod Determined
mod Calls
mod Contents
mod Safety
mod Tests
use cpp_wtfsc.Base.{ℕ, ◌≡◌, Bool, true, false, Option, none, some, if◌then◌else◌, ◌==◌}

-- `head_` holds no data.
pub record Node (A : Type 0) : Type 0 where
  pub value : Option A
  pub next : Option ℕ

pub data Task (A : Type 0) : Type 0 where
  for_each : (A → A) → Task A
  find_first_if : (A → Bool) → Task A
  remove_if : (A → Bool) → Task A

-- Where a thread stands, with the local variables that are live there: at the head of the loop with
-- the lock of `cur`; with `next` read, before its lock; with both locks; with the lock of `next` alone;
-- in `remove_if` with `old_next` taken out of the list, with and without its lock; behind the loop.
pub data Thread (A : Type 0) : Type 0 where
  idle : Thread A
  at : Task A → ℕ → Thread A
  reached : Task A → ℕ → ℕ → Thread A
  both : Task A → ℕ → ℕ → Thread A
  visiting : Task A → ℕ → Thread A
  unlinked : (A → Bool) → ℕ → ℕ → Thread A
  retired : (A → Bool) → ℕ → ℕ → Thread A
  done : Option A → Thread A

-- A node's mutex with the thread that holds it.
pub record System (A : Type 0) : Type 0 where
  pub nodes : ℕ → Option (Node A)
  pub locks : ℕ → Option ℕ
  pub threads : ℕ → Thread A

abbrev pub write : {B : Type 0} → (ℕ → B) → ℕ → B → ℕ → B
write f a b a' = if a == a' then b else f a'

abbrev pub unlocks_first : {A : Type 0} → Task A → Bool
unlocks_first (for_each f) = true
unlocks_first (find_first_if p) = true
unlocks_first (remove_if p) = false

abbrev pub init : (A : Type 0) → System A
init A = record {
  nodes = λ a. if a == 0 then some (record { value = none; next = none }) else none;
  locks = λ a. none;
  threads = λ i. Thread.idle;
}

pub data Step {A : Type 0} (s : System A) : System A → Type 0 where
  push_front :
      (i : ℕ) (x : A) (a : ℕ) {head : Node A}
      → s.threads i ≡ Thread.idle
      → s.nodes a ≡ none
      → s.locks 0 ≡ none
      → s.nodes 0 ≡ some head
      → Step s (record s {
        nodes =
            write
              (write s.nodes a (some (record { value = some x; next = head.next })))
              0
              (some (record head { next = some a }));
        locks = write s.locks a none;
      })
  begin :
      (i : ℕ) (task : Task A)
      → s.threads i ≡ Thread.idle
      → s.locks 0 ≡ none
      → Step s (record s {
        locks = write s.locks 0 (some i);
        threads = write s.threads i (Thread.at task 0);
      })
  read_next :
      (i : ℕ) {task : Task A} {cur n : ℕ} {node : Node A}
      → s.threads i ≡ Thread.at task cur
      → s.nodes cur ≡ some node
      → node.next ≡ some n
      → Step s (record s { threads = write s.threads i (Thread.reached task cur n) })
  finish :
      (i : ℕ) {task : Task A} {cur : ℕ} {node : Node A}
      → s.threads i ≡ Thread.at task cur
      → s.nodes cur ≡ some node
      → node.next ≡ none
      → Step s (record s {
        locks = write s.locks cur none;
        threads = write s.threads i (Thread.done none);
      })
  lock_next :
      (i : ℕ) {task : Task A} {cur n : ℕ}
      → s.threads i ≡ Thread.reached task cur n
      → s.locks n ≡ none
      → Step s (record s {
        locks = write s.locks n (some i);
        threads = write s.threads i (Thread.both task cur n);
      })
  unlock_head :
      (i : ℕ) {task : Task A} {cur n : ℕ}
      → s.threads i ≡ Thread.both task cur n
      → unlocks_first task ≡ true
      → Step s (record s {
        locks = write s.locks cur none;
        threads = write s.threads i (Thread.visiting task n);
      })
  call :
      (i : ℕ) {f : A → A} {n : ℕ} {node : Node A} {x : A}
      → s.threads i ≡ Thread.visiting (for_each f) n
      → s.nodes n ≡ some node
      → node.value ≡ some x
      → Step s (record s {
        nodes = write s.nodes n (some (record node { value = some (f x) }));
        threads = write s.threads i (Thread.at (for_each f) n);
      })
  found :
      (i : ℕ) {p : A → Bool} {n : ℕ} {node : Node A} {x : A}
      → s.threads i ≡ Thread.visiting (find_first_if p) n
      → s.nodes n ≡ some node
      → node.value ≡ some x
      → p x ≡ true
      → Step s (record s {
        locks = write s.locks n none;
        threads = write s.threads i (Thread.done (some x));
      })
  not_found :
      (i : ℕ) {p : A → Bool} {n : ℕ} {node : Node A} {x : A}
      → s.threads i ≡ Thread.visiting (find_first_if p) n
      → s.nodes n ≡ some node
      → node.value ≡ some x
      → p x ≡ false
      → Step s (record s { threads = write s.threads i (Thread.at (find_first_if p) n) })
  keep :
      (i : ℕ) {p : A → Bool} {cur n : ℕ} {node : Node A} {x : A}
      → s.threads i ≡ Thread.both (remove_if p) cur n
      → s.nodes n ≡ some node
      → node.value ≡ some x
      → p x ≡ false
      → Step s (record s {
        locks = write s.locks cur none;
        threads = write s.threads i (Thread.at (remove_if p) n);
      })
  unlink :
      (i : ℕ) {p : A → Bool} {cur n : ℕ} {before node : Node A} {x : A}
      → s.threads i ≡ Thread.both (remove_if p) cur n
      → s.nodes cur ≡ some before
      → s.nodes n ≡ some node
      → node.value ≡ some x
      → p x ≡ true
      → Step s (record s {
        nodes =
            write
              (write s.nodes n (some (record node { next = none })))
              cur
              (some (record before { next = node.next }));
        threads = write s.threads i (Thread.unlinked p cur n);
      })
  unlock_next :
      (i : ℕ) {p : A → Bool} {cur old_next : ℕ}
      → s.threads i ≡ Thread.unlinked p cur old_next
      → Step s (record s {
        locks = write s.locks old_next none;
        threads = write s.threads i (Thread.retired p cur old_next);
      })
  delete_next :
      (i : ℕ) {p : A → Bool} {cur old_next : ℕ}
      → s.threads i ≡ Thread.retired p cur old_next
      → Step s (record s {
        nodes = write s.nodes old_next none;
        threads = write s.threads i (Thread.at (remove_if p) cur);
      })
  return :
      (i : ℕ) {o : Option A}
      → s.threads i ≡ Thread.done o
      → Step s (record s { threads = write s.threads i Thread.idle })

pub data Reach {A : Type 0} : System A → Type 0 where
  start : Reach (init A)
  step : {s t : System A} → Reach s → Step s t → Reach t
