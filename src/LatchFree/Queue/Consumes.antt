-- ===== src/LatchFree/Queue/Consumes.antt =====
-- Each step of `pop` in src/latch-free/queue.cpp keeps the invariant.
use cpp_wtfsc.Base.{
  ℕ, ◌≡◌, ◌≢◌, ◌<◌, ◌≤◌, refl, sym, ap, ◌∙◌, List, [], ◌∷◌, ◌++◌, append_assoc, Option, none, some,
  arith,
}
use cpp_wtfsc.LatchFree.Queue.{
  Node, Producer, Consumer, System, write, Consume, load_head, empty, test_tail, load_next,
  store_head, copy, delete_head,
}
use cpp_wtfsc.LatchFree.Queue.Invariant.{
  value_at, next_at, Seg, Writes, Reads, Inv, Seg-le, Seg-frame,
}

module _ {A : Type 0} where
  -- The nodes that `push` relies on are not before `head`.
  Writes-frame :
      (s t : System A) (pos : ℕ → ℕ) (p : Producer A)
      → t.tail ≡ s.tail
      → ((a : ℕ) → pos s.tail ≤ pos a → t.nodes a ≡ s.nodes a)
      → Writes s pos p
      → Writes t pos p
  Writes-frame s t pos Producer.idle e same w = tt
  Writes-frame s t pos (Producer.created x a) e same w =
      (ground (arith, w, same a), ground (arith, w, e))
  Writes-frame s t pos (Producer.got_tail x a l) e same w =
      (w.0 ∙ sym e, (ground (arith, w.1, same a), ground (arith, w.1, e)))
  Writes-frame s t pos (Producer.swapped x a l) e same w = (
    w.0 ∙ sym e,
    (ground (arith, w.1, same a), ground (arith, w.1, e)),
    rw e (ground (arith, w.2, same s.tail)),
  )
  Writes-frame s t pos (Producer.linked x a) e same w = (
    (ground (arith, w.0, same a), ground (arith, w.0, e)),
    rw e (ground (arith, w.1, same s.tail)),
  )

  -- The list is not empty while `head` is before `tail`.
  first_of :
      (nodes : ℕ → Option (Node A)) (pos : ℕ → ℕ) (a : ℕ) (xs : List A) (b n : ℕ)
      → pos a < pos b
      → next_at (nodes a) ≡ some n
      → Seg nodes pos a xs b
      → (x : A) × (ys : List A) × (xs ≡ x ∷ ys)
        × (value_at (nodes a) ≡ some x)
        × (pos a < pos n)
        × Seg nodes pos n ys b
  first_of nodes pos a [] b n lt e r = absurd (ground (arith, lt, r))
  first_of nodes pos a (x ∷ xs) b n lt e (m, f, lt', r) =
      let same : m ≡ n = ground (arith, e, f) in
      (x, xs, refl, ap value_at f, rw same at lt', rw same at r)

  ahead :
      (nodes : ℕ → Option (Node A)) (pos : ℕ → ℕ) (a : ℕ) (xs : List A) (b : ℕ)
      → a ≢ b
      → Seg nodes pos a xs b
      → pos a < pos b
  ahead nodes pos a [] b ne r = absurd (ne r)
  ahead nodes pos a (x ∷ xs) b ne (n, f, lt, r) = omega (arith, Seg-le nodes pos n xs b r)

  module _ {s : System A} (v : Inv s) (c : Consumer A) where
    abbrev goes : System A
    goes = record s { consumers = write s.consumers 0 c }

    Inv-goes : Reads goes v.pos v.flight c → Inv goes
    Inv-goes r = record {
      pos = v.pos;
      queued = v.queued;
      flight = v.flight;
      seg = v.seg;
      tail_there = v.tail_there;
      writes = Writes-frame s goes v.pos (s.producers 0) refl (λ a h. refl) v.writes;
      reads = r;
      fifo = v.fifo;
    }

  no_flight :
      (popped flight queued : List A)
      → flight ≡ []
      → popped ++ (flight ++ queued) ≡ popped ++ queued
  no_flight popped flight queued e = ap (λ l. popped ++ (l ++ queued)) e

  pub Consume-Inv : {zero_value : A} {s t : System A} → Consume zero_value 0 s t → Inv s → Inv t
  Consume-Inv {s = s} (load_head e) v =
      let r : Reads s v.pos v.flight Consumer.idle = rw e at v.reads in
      Inv-goes v (Consumer.got_head s.head) (r, refl)
  Consume-Inv {s = s} (empty {h} e f) v =
      let r : Reads s v.pos v.flight (Consumer.got_head h) = rw e at v.reads in
      Inv-goes v Consumer.idle r.0
  Consume-Inv {s = s} (test_tail {h} e f) v =
      let r : Reads s v.pos v.flight (Consumer.got_head h) = rw e at v.reads in
      let lt = ahead s.nodes v.pos s.head v.queued s.tail (λ q. f (r.1 ∙ q)) v.seg in
      Inv-goes v (Consumer.not_empty h) (r.0, r.1, lt)
  Consume-Inv {s = s} (load_next {h} {n} e f g) v =
      let r : Reads s v.pos v.flight (Consumer.not_empty h) = rw e at v.reads in
      Inv-goes v (Consumer.got_next h n) (r.0, r.1, r.2, ap next_at f ∙ g)
  Consume-Inv {s = s} (store_head {h} {n} e) v =
      let r : Reads s v.pos v.flight (Consumer.got_next h n) = rw e at v.reads in
      let (x, ys, split, value, lt, rest) =
        first_of s.nodes v.pos s.head v.queued s.tail n r.2 (rw r.1 at r.3) v.seg in
      let s' : System A = record s {
        head = n;
        consumers = write s.consumers 0 (Consumer.unlinked h);
      } in
      record {
        pos = v.pos;
        queued = ys;
        flight = x ∷ [];
        seg = rest;
        tail_there = v.tail_there;
        writes = Writes-frame s s' v.pos (s.producers 0) refl (λ a q. refl) v.writes;
        reads = (x, refl, rw r.1 value, ground (arith, r.1, lt));
        fifo = v.fifo ∙ no_flight s.popped v.flight v.queued r.0 ∙ ap (λ l. s.popped ++ l) split;
      }
  Consume-Inv {s = s} (copy {h} {node} e f) v =
      let r : Reads s v.pos v.flight (Consumer.unlinked h) = rw e at v.reads in
      let (x, g, value, lt) = r in
      Inv-goes v (Consumer.copied h node.value) (ground (arith, g, f, value), ground (arith, f), lt)
  Consume-Inv {s = s} (delete_head {h} {x} e) v =
      let r : Reads s v.pos v.flight (Consumer.copied h x) = rw e at v.reads in
      let le = Seg-le s.nodes v.pos s.head v.queued s.tail v.seg in
      let s' : System A = record s {
        nodes = write s.nodes h none;
        consumers = write s.consumers 0 Consumer.idle;
        popped = s.popped ++ x ∷ [];
      } in
      record {
        pos = v.pos;
        queued = v.queued;
        flight = [];
        seg =
            Seg-frame s.nodes s'.nodes v.pos v.pos s.head v.queued s.tail
              (λ c g h' q. ground (arith, g, r.2)) (λ c q. refl) v.tail_there v.seg;
        tail_there = ground (arith, v.tail_there, r.2, le);
        writes =
            Writes-frame s s' v.pos (s.producers 0) refl (λ a q. ground (arith, q, r.2, le))
              v.writes;
        reads = refl;
        fifo =
            v.fifo
            ∙ ap (λ l. s.popped ++ (l ++ v.queued)) r.0
            ∙ sym (append_assoc s.popped (x ∷ []) v.queued);
      }
