-- ===== src/LatchFree/Queue/Produces.antt =====
-- Each step of `push` in src/latch-free/queue.cpp keeps the invariant.
use cpp_wtfsc.Base.{
  ℕ, ◌+◌, ◌≡◌, ◌≢◌, ◌<◌, refl, sym, ap, ◌∙◌, true, List, [], ◌∷◌, ◌++◌, append_assoc, Option, none,
  some, arith,
}
use cpp_wtfsc.LatchFree.Queue.{
  Node, Producer, Consumer, System, write, new_node, Produce, create, load_tail, swap, store_next,
  store_tail,
}
use cpp_wtfsc.LatchFree.Queue.Invariant.{
  is_some, value_at, next_at, Writes, Reads, Inv, Seg-le, Seg-there, Seg-frame, Seg-snoc,
}

module _ {A : Type 0} where
  pub value_there : (o : Option (Node A)) (x : A) → value_at o ≡ some x → is_some o ≡ true
  value_there none x e = absurd (ground (arith, e))
  value_there (some node) x e = refl

  pub Reads-frame :
      (s t : System A) (pos pos' : ℕ → ℕ) (flight : List A) (c : Consumer A)
      → t.head ≡ s.head
      → (pos s.head < pos s.tail → pos' s.head < pos' t.tail)
      → ((h : ℕ)
          → pos h < pos s.head
          → is_some (s.nodes h) ≡ true
          → (t.nodes h ≡ s.nodes h) × (pos' h < pos' s.head))
      → ((n : ℕ)
          → pos s.head < pos s.tail
          → next_at (s.nodes s.head) ≡ some n
          → next_at (t.nodes s.head) ≡ some n)
      → Reads s pos flight c
      → Reads t pos' flight c
  Reads-frame s t pos pos' flight Consumer.idle e l k n r = r
  Reads-frame s t pos pos' flight (Consumer.got_head h) e l k n r = (r.0, r.1 ∙ sym e)
  Reads-frame s t pos pos' flight (Consumer.not_empty h) e l k n r =
      (r.0, r.1 ∙ sym e, rw e (l r.2))
  Reads-frame s t pos pos' flight (Consumer.got_next h m) e l k n r =
      (r.0, r.1 ∙ sym e, rw e (l r.2), rw r.1 (n m r.2 (rw r.1 at r.3)))
  Reads-frame s t pos pos' flight (Consumer.unlinked h) e l k n (x, f, g, lt) =
      let (same, lt') = k h lt (value_there (s.nodes h) x g) in
      (x, f, ap value_at same ∙ g, rw e lt')
  Reads-frame s t pos pos' flight (Consumer.copied h x) e l k n r =
      let (same, lt') = k h r.2 r.1 in (r.0, ap is_some same ∙ r.1, rw e lt')

  module _ {zero_value : A} {s : System A} where
    pub Produce-Inv : {t : System A} → Produce zero_value 0 s t → Inv s → Inv t
    Produce-Inv (create x a e f) v =
        let s' : System A = record s {
          nodes = write s.nodes a (some (new_node zero_value));
          producers = write s.producers 0 (Producer.created x a);
        } in
        let pos' = write v.pos a (v.pos s.tail + 1) in
        let fresh : (c : ℕ) → is_some (s.nodes c) ≡ true → a ≢ c =
          λ c h q. ground (arith, f, h, q) in
        let kept : (c : ℕ) → is_some (s.nodes c) ≡ true → pos' c ≡ v.pos c =
          λ c h. ground (arith, fresh c h) in
        let head_there = Seg-there s.nodes v.pos s.head v.queued s.tail v.tail_there v.seg in
        record {
          pos = pos';
          queued = v.queued;
          flight = v.flight;
          seg =
              Seg-frame s.nodes s'.nodes v.pos pos' s.head v.queued s.tail
                (λ c g h q. ground (arith, fresh c q)) kept v.tail_there v.seg;
          tail_there = ground (arith, v.tail_there);
          writes = (ground arith, ground (arith, fresh s.tail v.tail_there));
          reads =
              Reads-frame s s' v.pos pos' v.flight (s.consumers 0) refl
                (λ h. omega (arith, kept s.head head_there, kept s.tail v.tail_there, h))
                (λ h lt q.
                  (ground (arith, fresh h q), omega (arith, kept h q, kept s.head head_there, lt)))
                (λ n lt q. ground (arith, q, fresh s.head head_there)) v.reads;
          fifo = v.fifo;
        }
    Produce-Inv (load_tail {x} {a} e) v =
        let s' : System A = record s {
          producers = write s.producers 0 (Producer.got_tail x a s.tail);
        } in
        let w : Writes s v.pos (Producer.created x a) = rw e at v.writes in
        record {
          pos = v.pos;
          queued = v.queued;
          flight = v.flight;
          seg = v.seg;
          tail_there = v.tail_there;
          writes = (refl, w);
          reads =
              Reads-frame s s' v.pos v.pos v.flight (s.consumers 0) refl (λ h. h)
                (λ h lt q. (refl, lt)) (λ n lt q. q) v.reads;
          fifo = v.fifo;
        }
    Produce-Inv (swap {x} {a} {t} {node} e f) v =
        let s' : System A = record s {
          nodes = write s.nodes t (some (record node { value = x }));
          producers = write s.producers 0 (Producer.swapped x a t);
        } in
        let w : Writes s v.pos (Producer.got_tail x a t) = rw e at v.writes in
        let le = Seg-le s.nodes v.pos s.head v.queued s.tail v.seg in
        record {
          pos = v.pos;
          queued = v.queued;
          flight = v.flight;
          seg =
              Seg-frame s.nodes s'.nodes v.pos v.pos s.head v.queued s.tail
                (λ c g h q. ground (arith, w.0, h)) (λ c h. refl) v.tail_there v.seg;
          tail_there = ground (arith, v.tail_there);
          writes = (w.0, (ground (arith, w.1.0), w.1.1), ground (arith, w.0));
          reads =
              Reads-frame s s' v.pos v.pos v.flight (s.consumers 0) refl (λ h. h)
                (λ h lt q. (ground (arith, w.0, lt, le), lt)) (λ n lt q. ground (arith, w.0, lt, q))
                v.reads;
          fifo = v.fifo;
        }
    Produce-Inv (store_next {x} {a} {t} {node} e f) v =
        let s' : System A = record s {
          nodes = write s.nodes t (some (record node { next = some a }));
          producers = write s.producers 0 (Producer.linked x a);
        } in
        let w : Writes s v.pos (Producer.swapped x a t) = rw e at v.writes in
        let le = Seg-le s.nodes v.pos s.head v.queued s.tail v.seg in
        record {
          pos = v.pos;
          queued = v.queued;
          flight = v.flight;
          seg =
              Seg-frame s.nodes s'.nodes v.pos v.pos s.head v.queued s.tail
                (λ c g h q. ground (arith, w.0, h)) (λ c h. refl) v.tail_there v.seg;
          tail_there = ground (arith, v.tail_there);
          writes = ((ground (arith, w.1.0), w.1.1), ground (arith, w.0, w.2, f));
          reads =
              Reads-frame s s' v.pos v.pos v.flight (s.consumers 0) refl (λ h. h)
                (λ h lt q. (ground (arith, w.0, lt, le), lt)) (λ n lt q. ground (arith, w.0, lt, q))
                v.reads;
          fifo = v.fifo;
        }
    Produce-Inv (store_tail {x} {a} e) v =
        let s' : System A = record s {
          tail = a;
          producers = write s.producers 0 Producer.idle;
          pushed = s.pushed ++ x ∷ [];
        } in
        let w : Writes s v.pos (Producer.linked x a) = rw e at v.writes in
        let le = Seg-le s.nodes v.pos s.head v.queued s.tail v.seg in
        record {
          pos = v.pos;
          queued = v.queued ++ x ∷ [];
          flight = v.flight;
          seg = Seg-snoc s.nodes v.pos s.head v.queued s.tail a x v.seg w.1 w.0.1;
          tail_there = w.0.0;
          writes = tt;
          reads =
              Reads-frame s s' v.pos v.pos v.flight (s.consumers 0) refl
                (λ h. omega (arith, h, w.0.1)) (λ h lt q. (refl, lt)) (λ n lt q. q) v.reads;
          fifo =
              ap (λ l. l ++ x ∷ []) v.fifo
              ∙ append_assoc s.popped (v.flight ++ v.queued) (x ∷ [])
              ∙ ap (λ l. s.popped ++ l) (append_assoc v.flight v.queued (x ∷ []));
        }
