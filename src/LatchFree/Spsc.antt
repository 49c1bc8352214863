-- ===== src/LatchFree/Spsc.antt =====
-- The queue of src/latch-free/spsc-20.cpp between one producer thread and one consumer thread. Each
-- step below is one access to shared memory, and the two threads' steps interleave in any order (the
-- release stores and acquire loads make this the view that each side has of the other's writes).
-- An index stays below `cap`, a `size_t`, so `t + 1` does not wrap.
pub mod Invariant
mod Facts
mod Produces
mod Consumes
pub mod Safety
mod Tests
use cpp_wtfsc.Base.{
  ℕ, ◌+◌, ◌%◌, ◌≡◌, ◌≢◌, List, [], ◌∷◌, ◌++◌, Bool, true, false, Option, none, some, ◌==◌,
  if◌then◌else◌,
}

-- Where the producer stands in `emplace`, with the local variables that are live there.
pub data Producer (A : Type 0) : Type 0 where
  idle : Producer A
  got_tail : A → ℕ → Producer A
  has_room : A → ℕ → Producer A
  built : A → ℕ → Producer A
  done : Bool → Producer A

-- Where the consumer stands in `pop`. `done` carries what `pop` returns through `val`.
pub data Consumer (A : Type 0) : Type 0 where
  idle : Consumer A
  got_head : ℕ → Consumer A
  has_item : ℕ → Consumer A
  moved : ℕ → A → Consumer A
  destroyed : ℕ → A → Consumer A
  done : Option A → Consumer A

-- The object, both threads, and what the calls have pushed and popped so far. A cell of the raw
-- storage is `none` where no object is alive.
pub record System (A : Type 0) : Type 0 where
  pub cells : ℕ → Option A
  pub head : ℕ
  pub tail : ℕ
  pub producer : Producer A
  pub consumer : Consumer A
  pub pushed : List A
  pub popped : List A

-- The constructor: raw storage, and both indices at 0.
abbrev pub init : (A : Type 0) → System A
init A = record {
  cells = λ i. none;
  head = 0;
  tail = 0;
  producer = Producer.idle;
  consumer = Consumer.idle;
  pushed = [];
  popped = [];
}

abbrev pub write : {A : Type 0} → (ℕ → Option A) → ℕ → Option A → ℕ → Option A
write cells i o j = if i == j then o else cells j

-- One step of `emplace`.
pub data Produce {A : Type 0} (cap : ℕ) (s : System A) : System A → Type 0 where
  load_tail :
      (v : A)
      → s.producer ≡ Producer.idle
      → Produce cap s (record s { producer = Producer.got_tail v s.tail })
  full :
      {v : A} {t : ℕ}
      → s.producer ≡ Producer.got_tail v t
      → (t + 1) % cap ≡ s.head
      → Produce cap s (record s { producer = Producer.done false })
  not_full :
      {v : A} {t : ℕ}
      → s.producer ≡ Producer.got_tail v t
      → (t + 1) % cap ≢ s.head
      → Produce cap s (record s { producer = Producer.has_room v t })
  construct :
      {v : A} {t : ℕ}
      → s.producer ≡ Producer.has_room v t
      → s.cells t ≡ none
      → Produce cap s (record s { cells = write s.cells t (some v); producer = Producer.built v t })
  store_tail :
      {v : A} {t : ℕ}
      → s.producer ≡ Producer.built v t
      → Produce cap s (record s {
        tail = (t + 1) % cap;
        pushed = s.pushed ++ v ∷ [];
        producer = Producer.done true;
      })
  return :
      {b : Bool}
      → s.producer ≡ Producer.done b
      → Produce cap s (record s { producer = Producer.idle })

-- One step of `pop`.
pub data Consume {A : Type 0} (cap : ℕ) (s : System A) : System A → Type 0 where
  load_head :
      s.consumer ≡ Consumer.idle → Consume cap s (record s { consumer = Consumer.got_head s.head })
  empty :
      {h : ℕ}
      → s.consumer ≡ Consumer.got_head h
      → h ≡ s.tail
      → Consume cap s (record s { consumer = Consumer.done none })
  not_empty :
      {h : ℕ}
      → s.consumer ≡ Consumer.got_head h
      → h ≢ s.tail
      → Consume cap s (record s { consumer = Consumer.has_item h })
  move :
      {h : ℕ} {v : A}
      → s.consumer ≡ Consumer.has_item h
      → s.cells h ≡ some v
      → Consume cap s (record s { consumer = Consumer.moved h v })
  destroy :
      {h : ℕ} {v : A}
      → s.consumer ≡ Consumer.moved h v
      → Consume cap s (record s { cells = write s.cells h none; consumer = Consumer.destroyed h v })
  store_head :
      {h : ℕ} {v : A}
      → s.consumer ≡ Consumer.destroyed h v
      → Consume cap s (record s {
        head = (h + 1) % cap;
        popped = s.popped ++ v ∷ [];
        consumer = Consumer.done (some v);
      })
  return :
      {o : Option A}
      → s.consumer ≡ Consumer.done o
      → Consume cap s (record s { consumer = Consumer.idle })

-- The states that the two threads can reach together.
pub data Reach {A : Type 0} (cap : ℕ) : System A → Type 0 where
  start : Reach cap (init A)
  produce : {s t : System A} → Reach cap s → Produce cap s t → Reach cap t
  consume : {s t : System A} → Reach cap s → Consume cap s t → Reach cap t
