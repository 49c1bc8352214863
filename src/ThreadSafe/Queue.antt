-- ===== src/ThreadSafe/Queue.antt =====
-- The three queues of src/thread-safe/queue.cpp. The heap is a list of nodes in the order in which they
-- were made, an address is a position in it, and a freed node is `none`. A call returns `none` where
-- the code reads or writes a node that was freed, or follows a null pointer.
pub mod Plain
pub mod Dummy
pub mod Concurrent
mod Tests
use cpp_wtfsc.Base.{
  ℕ, suc, ◌≡◌, ◌≢◌, Bool, true, false, List, [], ◌∷◌, ◌++◌, Option, none, some, ◌>>=◌, ◌==◌, length,
  get_elem?, set, if◌then◌else◌,
}

-- A live node at an address.
abbrev pub node_at : {N : Type 0} → List (Option N) → ℕ → Option N
node_at heap a = get_elem? heap a >>= λ cell. cell

-- `Queue<T>::Node`
pub record Node (A : Type 0) : Type 0 where
  pub v : A
  pub next : Option ℕ

-- `Queue<T>`
pub record Queue (A : Type 0) : Type 0 where
  pub heap : List (Option (Node A))
  pub head : Option ℕ
  pub tail : Option ℕ

module _ {A : Type 0} where
  unfoldable pub empty_queue : Queue A
  empty_queue = record { heap = []; head = none; tail = none }

  unfoldable pub push : Queue A → A → Option (Queue A)
  push q x =
      let new_tail_node = length q.heap in
      let heap = q.heap ++ some (record { v = x; next = none }) ∷ [] in
      elim q.tail [
        | none ↦ some (record { heap = heap; head = some new_tail_node; tail = some new_tail_node })
        | some t ↦ node_at heap t >>= λ node. some (record q {
          heap = set heap t (some (record node { next = some new_tail_node }));
          tail = some new_tail_node;
        })
      ]

  -- The answer, and the queue; `head_` frees the node that it leaves.
  unfoldable pub try_pop : Queue A → Option (Option A × Queue A)
  try_pop q = elim q.head [
    | none ↦ some (none, q)
    | some h ↦ node_at q.heap h >>= λ node.
        some (some node.v, record q { heap = set q.heap h none; head = node.next })
  ]

-- `DummyQueue<T>::Node`, also of `ConcurrentQueue<T>`
pub record DummyNode (A : Type 0) : Type 0 where
  pub value : Option A
  pub link : Option ℕ

-- `DummyQueue<T>`; its last node holds no value.
pub record DummyQueue (A : Type 0) : Type 0 where
  pub heap : List (Option (DummyNode A))
  pub head : Option ℕ
  pub tail : ℕ

-- `head_.get() == tail_`
unfoldable pub is_at : Option ℕ → ℕ → Bool
is_at none t = false
is_at (some h) t = h == t

module _ {A : Type 0} where
  abbrev pub blank : DummyNode A
  blank = record { value = none; link = none }

  unfoldable pub init : DummyQueue A
  init = record { heap = some blank ∷ []; head = some 0; tail = 0 }

  unfoldable pub dummy_push : DummyQueue A → A → Option (DummyQueue A)
  dummy_push q x =
      let new_tail_node = length q.heap in
      let heap = q.heap ++ some blank ∷ [] in
      node_at heap q.tail >>= λ node. some (record q {
        heap = set heap q.tail (some (record { value = some x; link = some new_tail_node }));
        tail = new_tail_node;
      })

  -- `ret = head_->v; head_ = std::move(head_->next)`, which frees the node.
  unfoldable pub pop_head : DummyQueue A → Option (Option A × DummyQueue A)
  pop_head q = elim q.head [
    | none ↦ none
    | some h ↦ node_at q.heap h >>= λ node.
        some (node.value, record q { heap = set q.heap h none; head = node.link })
  ]

  unfoldable pub dummy_try_pop : DummyQueue A → Option (Option A × DummyQueue A)
  unfolding is_at pop_head
  dummy_try_pop q = if is_at q.head q.tail then some (none, q) else pop_head q
