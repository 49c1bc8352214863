-- ===== src/LatchFree/Stack.antt =====
-- `LockFreeStack` of src/latch-free/stack.cpp: each step of a thread is one access to `head`. A node
-- belongs to its thread until the exchange that publishes it; no node is freed or changed afterwards.
-- `compare_exchange_weak` may fail at any time.
pub mod Linear
mod Tests
use cpp_wtfsc.Base.{
  ℕ, ◌≡◌, List, [], ◌∷◌, ◌++◌, Option, none, some, ◌>>=◌, length, get_elem?, if◌then◌else◌, ◌==◌,
}

pub record Node (A : Type 0) : Type 0 where
  pub value : A
  pub next : Option ℕ

-- Between its calls, in `push` with `new_node->next`, or in `pop` with `old_head`.
pub data Thread (A : Type 0) : Type 0 where
  idle : Thread A
  pushing : A → Option ℕ → Thread A
  popping : Option ℕ → Thread A

pub data Event (A : Type 0) : Type 0 where
  pushed : A → Event A
  popped : A → Event A

-- The published nodes by address, `head`, the threads by number, and the exchanges that succeeded,
-- newest first.
pub record Stack (A : Type 0) : Type 0 where
  pub nodes : List (Node A)
  pub head : Option ℕ
  pub threads : ℕ → Thread A
  pub log : List (Event A)

module _ {A : Type 0} where
  abbrev pub update : (ℕ → Thread A) → ℕ → Thread A → ℕ → Thread A
  update threads i t j = if i == j then t else threads j

  -- `head` holds what it finds in memory: it has no initializer, and C++17 gives it none.
  abbrev pub init : Option ℕ → Stack A
  init garbage = record { nodes = []; head = garbage; threads = λ i. idle; log = [] }

pub data Step {A : Type 0} (s : Stack A) : Stack A → Type 0 where
  push_load :
      (i : ℕ) (x : A)
      → s.threads i ≡ idle
      → Step s (record s { threads = update s.threads i (pushing x s.head) })
  push_exchange :
      (i : ℕ) {x : A} {next : Option ℕ}
      → s.threads i ≡ pushing x next
      → s.head ≡ next
      → Step s (record s {
        nodes = s.nodes ++ record { value = x; next = next } ∷ [];
        head = some (length s.nodes);
        threads = update s.threads i idle;
        log = pushed x ∷ s.log;
      })
  push_again :
      (i : ℕ) {x : A} {next : Option ℕ}
      → s.threads i ≡ pushing x next
      → Step s (record s { threads = update s.threads i (pushing x s.head) })
  pop_load :
      (i : ℕ)
      → s.threads i ≡ idle
      → Step s (record s { threads = update s.threads i (popping s.head) })
  pop_exchange :
      (i : ℕ) {a : ℕ} {node : Node A}
      → s.threads i ≡ popping (some a)
      → s.head ≡ some a
      → get_elem? s.nodes a ≡ some node
      → Step s (record s {
        head = node.next;
        threads = update s.threads i idle;
        log = popped node.value ∷ s.log;
      })
  pop_again :
      (i : ℕ) {a : ℕ}
      → s.threads i ≡ popping (some a)
      → Step s (record s { threads = update s.threads i (popping s.head) })
  -- `pop` returns `nullptr`.
  pop_nothing :
      (i : ℕ) → s.threads i ≡ popping none → Step s (record s { threads = update s.threads i idle })

pub data Reach {A : Type 0} (garbage : Option ℕ) : Stack A → Type 0 where
  begin : Reach garbage (init garbage)
  step : {s t : Stack A} → Reach garbage s → Step s t → Reach garbage t
