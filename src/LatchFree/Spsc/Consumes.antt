-- ===== src/LatchFree/Spsc/Consumes.antt =====
-- The steps of `pop` in src/latch-free/spsc-20.cpp keep the invariant.
use cpp_wtfsc.Base.{
  ℕ, suc, ◌+◌, ◌%◌, ◌≤◌, ◌<◌, ◌≡◌, refl, [], ◌∷◌, ◌++◌, none, length, get_elem?, arith,
  length-append, append_assoc, ◌∙◌, sym, ap,
}
use native.Mathlib.Nat.{mod-add-mod, add-zero}
use cpp_wtfsc.LatchFree.Spsc.{
  System, Consumer, Consume, load_head, empty, not_empty, move, destroy, store_head,
}
use cpp_wtfsc.LatchFree.Spsc.Invariant.{Inv, unpublished, vacated, ConsumerOk}
use cpp_wtfsc.LatchFree.Spsc.Facts.{
  front_of_ne, front-append, length-unpublished-le, producer_shrinks, front_in, destroy_live,
  destroy_free, uncons,
}

module _ {A : Type 0} {cap : ℕ} where
  consumer_moves :
      {s : System A} (c : Consumer A) (inv : Inv cap s)
      → vacated s.consumer ≡ 0
      → vacated c ≡ 0
      → ConsumerOk s.head (get_elem? inv.rest 0) c
      → Inv cap (record s { consumer = c })
  consumer_moves {s} c inv e e' ok = record {
    rest = inv.rest;
    fifo = inv.fifo;
    room = inv.room;
    head = inv.head;
    tail = inv.tail;
    live = rw e' (rw e at inv.live);
    free = rw e' (rw e at inv.free);
    producer = inv.producer;
    consumer = ok;
  }

  items_le : {s : System A} (inv : Inv cap s) → length (inv.rest ++ unpublished s.producer) ≤ cap
  items_le {s} inv =
      rw length-append
        (length-unpublished-le s.tail (length inv.rest) cap s.producer inv.room inv.producer)

  -- Every step of `pop` keeps the invariant.
  pub Consume-Inv : {s t : System A} → Consume cap s t → Inv cap s → Inv cap t
  Consume-Inv {s} (load_head e) inv = consumer_moves (Consumer.got_head s.head) inv (rw e) refl refl
  Consume-Inv {s} (empty e f) inv = consumer_moves (Consumer.done none) inv (rw e) refl tt
  Consume-Inv {s} (not_empty {h} e f) inv =
      let ok = rw e at inv.consumer in
      consumer_moves (Consumer.has_item h) inv (rw e) refl
        (ok, front_of_ne inv.rest (length s.popped) cap h s.tail (ok ∙ inv.head) inv.tail f)
  Consume-Inv {s} (move {h} {v} e f) inv =
      let ok = rw e at inv.consumer in
      consumer_moves (Consumer.moved h v) inv (rw e) refl (
        ok.0,
        front-append inv.rest (unpublished s.producer) v ok.1 (
            sym (inv.live 0 (rw e (omega arith)) (front_in inv.rest _ ok.1))
            ∙ ap s.cells (rw (add-zero, ok.0, inv.head))
            ∙ f),
      )
  Consume-Inv {s} (destroy {h} {v} e) inv =
      let ok = rw e at inv.consumer in
      record {
        rest = inv.rest;
        fifo = inv.fifo;
        room = inv.room;
        head = inv.head;
        tail = inv.tail;
        live = λ i lo hi.
            destroy_live s.cells (length s.popped) h cap i _ (ok.0 ∙ inv.head) lo
              (omega (arith, hi, items_le inv)) (inv.live i (rw e (omega arith)) hi);
        free = λ i lo hi.
            destroy_free s.cells (length s.popped) h cap i (ok.0 ∙ inv.head)
              (λ (k : i < cap). (rw e at inv.free) i lo (omega arith)) hi;
        producer = inv.producer;
        consumer = ok;
      }
  Consume-Inv {s} (store_head {h} {v} e) inv =
      let ok = rw e at inv.consumer in
      let (r, cons) = uncons inv.rest v ok.1 in
      let n : length inv.rest ≡ length r + 1 = rw cons (omega arith) in
      let c : length (s.popped ++ v ∷ []) ≡ length s.popped + 1 = length-append s.popped (v ∷ []) in
      record {
        rest = r;
        fifo = rw (append_assoc, inv.fifo, cons);
        room = omega (arith, inv.room, n);
        head = rw (ok.0, inv.head, c, mod-add-mod);
        tail = rw (inv.tail, c, n) (ap (λ k. k % cap) (omega arith));
        live = λ i lo hi.
            let slot : length (s.popped ++ v ∷ []) + i ≡ length s.popped + suc i =
              omega (arith, c) in
            rw slot ((rw cons at (rw e at inv.live)) (suc i) (omega arith) (omega arith));
        free = λ i lo hi.
            let slot : length (s.popped ++ v ∷ []) + i ≡ length s.popped + suc i =
              omega (arith, c) in
            rw slot ((rw cons at (rw e at inv.free)) (suc i) (omega arith) (omega arith));
        producer =
            producer_shrinks s.tail (length inv.rest) (length r) cap s.producer (omega (arith, n))
              inv.producer;
        consumer = tt;
      }
  Consume-Inv {s} (Consume.return {o} e) inv = consumer_moves Consumer.idle inv (rw e) refl tt
