-- ===== src/LatchFree/Queue.antt =====
-- `LockFreeQueue` of src/latch-free/queue.cpp: each step of a thread is one access to `head`, `tail` or
-- a node. Nodes have addresses, and the address of a deleted node may be used again.
mod Invariant
mod Produces
mod Consumes
mod Single
mod Lost
mod Tests
use cpp_wtfsc.Base.{ℕ, ◌≡◌, ◌≢◌, ◌<◌, List, [], ◌∷◌, ◌++◌, Option, none, some, if◌then◌else◌, ◌==◌}

-- `next` is not initialised: `none` is an indeterminate pointer.
pub record Node (A : Type 0) : Type 0 where
  pub value : A
  pub next : Option ℕ

-- Where a thread stands in `push`, with the value, `new_node` and `old_tail` as far as they are live.
pub data Producer (A : Type 0) : Type 0 where
  idle : Producer A
  created : A → ℕ → Producer A
  got_tail : A → ℕ → ℕ → Producer A
  swapped : A → ℕ → ℕ → Producer A
  linked : A → ℕ → Producer A

-- Where a thread stands in `pop`: with `old_head`, behind the test, with `old_head->next`, behind
-- `pop_head`, and with the result before `delete`.
pub data Consumer (A : Type 0) : Type 0 where
  idle : Consumer A
  got_head : ℕ → Consumer A
  not_empty : ℕ → Consumer A
  got_next : ℕ → ℕ → Consumer A
  unlinked : ℕ → Consumer A
  copied : ℕ → A → Consumer A

-- The queue, the threads, and the values of the calls of `push` and `pop` that have ended.
pub record System (A : Type 0) : Type 0 where
  pub nodes : ℕ → Option (Node A)
  pub head : ℕ
  pub tail : ℕ
  pub producers : ℕ → Producer A
  pub consumers : ℕ → Consumer A
  pub pushed : List A
  pub popped : List A

abbrev pub write : {B : Type 0} → (ℕ → B) → ℕ → B → ℕ → B
write f a b a' = if a == a' then b else f a'

-- `zero_value` is `T()`, which a new node holds.
module _ {A : Type 0} (zero_value : A) where
  abbrev pub new_node : Node A
  new_node = record { value = zero_value; next = none }

  abbrev pub init : System A
  init = record {
    nodes = λ a. if 0 == a then some new_node else none;
    head = 0;
    tail = 0;
    producers = λ i. Producer.idle;
    consumers = λ i. Consumer.idle;
    pushed = [];
    popped = [];
  }

  -- One step of `push` in thread `i`.
  pub data Produce (i : ℕ) (s : System A) : System A → Type 0 where
    create :
        (x : A) (a : ℕ)
        → s.producers i ≡ Producer.idle
        → s.nodes a ≡ none
        → Produce i s (record s {
          nodes = write s.nodes a (some new_node);
          producers = write s.producers i (Producer.created x a);
        })
    load_tail :
        {x : A} {a : ℕ}
        → s.producers i ≡ Producer.created x a
        → Produce i s (record s { producers = write s.producers i (Producer.got_tail x a s.tail) })
    swap :
        {x : A} {a t : ℕ} {node : Node A}
        → s.producers i ≡ Producer.got_tail x a t
        → s.nodes t ≡ some node
        → Produce i s (record s {
          nodes = write s.nodes t (some (record node { value = x }));
          producers = write s.producers i (Producer.swapped x a t);
        })
    store_next :
        {x : A} {a t : ℕ} {node : Node A}
        → s.producers i ≡ Producer.swapped x a t
        → s.nodes t ≡ some node
        → Produce i s (record s {
          nodes = write s.nodes t (some (record node { next = some a }));
          producers = write s.producers i (Producer.linked x a);
        })
    store_tail :
        {x : A} {a : ℕ}
        → s.producers i ≡ Producer.linked x a
        → Produce i s (record s {
          tail = a;
          producers = write s.producers i Producer.idle;
          pushed = s.pushed ++ x ∷ [];
        })

  -- One step of `pop` in thread `i`.
  pub data Consume (i : ℕ) (s : System A) : System A → Type 0 where
    load_head :
        s.consumers i ≡ Consumer.idle
        → Consume i s (record s { consumers = write s.consumers i (Consumer.got_head s.head) })
    empty :
        {h : ℕ}
        → s.consumers i ≡ Consumer.got_head h
        → h ≡ s.tail
        → Consume i s (record s { consumers = write s.consumers i Consumer.idle })
    test_tail :
        {h : ℕ}
        → s.consumers i ≡ Consumer.got_head h
        → h ≢ s.tail
        → Consume i s (record s { consumers = write s.consumers i (Consumer.not_empty h) })
    load_next :
        {h n : ℕ} {node : Node A}
        → s.consumers i ≡ Consumer.not_empty h
        → s.nodes h ≡ some node
        → node.next ≡ some n
        → Consume i s (record s { consumers = write s.consumers i (Consumer.got_next h n) })
    store_head :
        {h n : ℕ}
        → s.consumers i ≡ Consumer.got_next h n
        → Consume i s (record s { head = n; consumers = write s.consumers i (Consumer.unlinked h) })
    copy :
        {h : ℕ} {node : Node A}
        → s.consumers i ≡ Consumer.unlinked h
        → s.nodes h ≡ some node
        → Consume i s (record s { consumers = write s.consumers i (Consumer.copied h node.value) })
    delete_head :
        {h : ℕ} {x : A}
        → s.consumers i ≡ Consumer.copied h x
        → Consume i s (record s {
          nodes = write s.nodes h none;
          consumers = write s.consumers i Consumer.idle;
          popped = s.popped ++ x ∷ [];
        })

  -- The states that `n` threads that push and `m` threads that pop reach together.
  pub data Reach (n m : ℕ) : System A → Type 0 where
    start : Reach n m init
    produce : {s t : System A} (i : ℕ) → i < n → Reach n m s → Produce i s t → Reach n m t
    consume : {s t : System A} (i : ℕ) → i < m → Reach n m s → Consume i s t → Reach n m t
