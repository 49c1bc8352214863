-- ===== src/LatchFree/Queue/Single.antt =====
-- src/latch-free/queue.cpp between one thread that pushes and one that pops.
use cpp_wtfsc.Base.{
  ℕ, zero, suc, ◌≡◌, ◌≤◌, ◌<◌, ◌⊎◌, inl, inr, refl, ap, true, List, [], ◌∷◌, ◌++◌, some, length,
  arith,
}
use cpp_wtfsc.LatchFree.Queue.{Producer, Consumer, System, Reach, start, produce, consume}
use cpp_wtfsc.LatchFree.Queue.Invariant.{is_some, next_at, Seg, Writes, Reads, Inv}
use cpp_wtfsc.LatchFree.Queue.Produces.{Produce-Inv, value_there}
use cpp_wtfsc.LatchFree.Queue.Consumes.{Consume-Inv}

module _ {A : Type 0} where
  in_flight :
      (s : System A) (pos : ℕ → ℕ) (flight : List A) (c : Consumer A)
      → Reads s pos flight c
      → length flight ≤ 1
  in_flight s pos flight Consumer.idle r = ground (arith, r)
  in_flight s pos flight (Consumer.got_head h) r = ground (arith, r.0)
  in_flight s pos flight (Consumer.not_empty h) r = ground (arith, r.0)
  in_flight s pos flight (Consumer.got_next h n) r = ground (arith, r.0)
  in_flight s pos flight (Consumer.unlinked h) (x, e, w, lt) = ground (arith, e)
  in_flight s pos flight (Consumer.copied h x) r = ground (arith, r.0)

module _ {A : Type 0} {zero_value : A} where
  Reach-Inv : {s : System A} → Reach zero_value 1 1 s → Inv s
  Reach-Inv start = record {
    pos = λ a. a;
    queued = [];
    flight = [];
    seg = refl;
    tail_there = refl;
    writes = tt;
    reads = refl;
    fifo = refl;
  }
  Reach-Inv (produce zero lt r e) = Produce-Inv e (Reach-Inv r)
  Reach-Inv (produce (suc i) lt r e) = absurd (omega arith)
  Reach-Inv (consume zero lt r e) = Consume-Inv e (Reach-Inv r)
  Reach-Inv (consume (suc i) lt r e) = absurd (omega arith)

  -- First in, first out between one thread that pushes and one that pops: in every state that they
  -- reach together the values pushed are those that were popped, at most one that is being popped, and
  -- those in the nodes from `head` to `tail`, in order.
  pub single_fifo :
      {s : System A}
      → Reach zero_value 1 1 s
      → (flight queued : List A) × (s.pushed ≡ s.popped ++ (flight ++ queued))
        × (length flight ≤ 1)
        × ((pos : ℕ → ℕ) × Seg s.nodes pos s.head queued s.tail)
  single_fifo {s} r =
      let v = Reach-Inv r in
      (
        v.flight,
        v.queued,
        v.fifo,
        in_flight s v.pos v.flight (s.consumers 0) v.reads,
        (v.pos, v.seg),
      )

  -- One thread that pushes and one that pops never touch a node that was deleted, and never read a
  -- `next` that was not set.
  pub single_no_fault :
      {s : System A}
      → Reach zero_value 1 1 s
      → ((x : A) (a t : ℕ)
          → (s.producers 0 ≡ Producer.got_tail x a t) ⊎ (s.producers 0 ≡ Producer.swapped x a t)
          → is_some (s.nodes t) ≡ true)
        × ((h : ℕ)
            → s.consumers 0 ≡ Consumer.not_empty h
            → (n : ℕ) × (next_at (s.nodes h) ≡ some n))
        × ((h : ℕ) → s.consumers 0 ≡ Consumer.unlinked h → is_some (s.nodes h) ≡ true)
        × ((h : ℕ) (x : A) → s.consumers 0 ≡ Consumer.copied h x → is_some (s.nodes h) ≡ true)
  single_no_fault {s} r = (
    λ x a t. at_tail x a t,
    λ h e.
        let q : Reads s v.pos v.flight (Consumer.not_empty h) = rw e at v.reads in
        rw q.1 (leads v.queued q.2 v.seg),
    λ h e. let (x, f, value, lt) = reads h e in value_there (s.nodes h) x value,
    λ h x e. let q : Reads s v.pos v.flight (Consumer.copied h x) = rw e at v.reads in q.1,
  )
    where
      v : Inv s
      v = Reach-Inv r

      reads :
          (h : ℕ)
          → s.consumers 0 ≡ Consumer.unlinked h
          → Reads s v.pos v.flight (Consumer.unlinked h)
      reads h e = rw e at v.reads

      at_tail :
          (x : A) (a t : ℕ)
          → (s.producers 0 ≡ Producer.got_tail x a t) ⊎ (s.producers 0 ≡ Producer.swapped x a t)
          → is_some (s.nodes t) ≡ true
      at_tail x a t (inl e) =
          let w : Writes s v.pos (Producer.got_tail x a t) = rw e at v.writes in rw w.0 v.tail_there
      at_tail x a t (inr e) =
          let w : Writes s v.pos (Producer.swapped x a t) = rw e at v.writes in rw w.0 v.tail_there

      leads :
          (xs : List A)
          → v.pos s.head < v.pos s.tail
          → Seg s.nodes v.pos s.head xs s.tail
          → (n : ℕ) × (next_at (s.nodes s.head) ≡ some n)
      leads [] lt e = absurd (ground (arith, lt, e))
      leads (x ∷ xs) lt (n, f, g, q) = (n, ap next_at f)
