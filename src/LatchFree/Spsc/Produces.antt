-- ===== src/LatchFree/Spsc/Produces.antt =====
-- The steps of `emplace` in src/latch-free/spsc-20.cpp keep the invariant.
use cpp_wtfsc.Base.{
  ℕ, ◌+◌, ◌%◌, ◌<◌, ◌≡◌, ◌≢◌, refl, [], ◌∷◌, ◌++◌, false, length, arith, length-append,
  append_assoc, append-nil, ◌∙◌, ap,
}
use native.Mathlib.Nat.{mod-add-mod, add-mod_right}
use native.Mathlib.Decide.{dec_lt}
use cpp_wtfsc.LatchFree.Spsc.{
  System, Producer, Produce, load_tail, full, not_full, construct, store_tail,
}
use cpp_wtfsc.LatchFree.Spsc.Invariant.{Inv, unpublished, ProducerOk}
use cpp_wtfsc.LatchFree.Spsc.Facts.{vacated-le, consumer_grows, construct_live, construct_free}

module _ {A : Type 0} {cap : ℕ} where
  -- A step that changes only where the producer stands.
  producer_moves :
      {s : System A} (p : Producer A) (inv : Inv cap s)
      → unpublished s.producer ≡ []
      → unpublished p ≡ []
      → ProducerOk cap s.tail (length inv.rest) p
      → Inv cap (record s { producer = p })
  producer_moves {s} p inv e e' ok = record {
    rest = inv.rest;
    fifo = inv.fifo;
    room = inv.room;
    head = inv.head;
    tail = inv.tail;
    live = rw e' (rw e at inv.live);
    free = rw e' (rw e at inv.free);
    producer = ok;
    consumer = inv.consumer;
  }

  -- The test on `head` leaves room for one more value.
  room_left :
      {s : System A} {t : ℕ} (inv : Inv cap s)
      → t ≡ s.tail
      → (t + 1) % cap ≢ s.head
      → length inv.rest + 1 < cap
  room_left {s} {t} inv e f = elim (dec_lt (length inv.rest + 1) cap) [
    | yes p ↦ p
    | no p ↦ absurd (f (go (omega arith)))
  ]
    where
      go : length inv.rest + 1 ≡ cap → (t + 1) % cap ≡ s.head
      go filled =
          let around : length s.popped + length inv.rest + 1 ≡ length s.popped + cap =
            omega arith in
          rw (e, inv.tail, inv.head, mod-add-mod, around, add-mod_right)

  -- Every step of `emplace` keeps the invariant.
  pub Produce-Inv : {s t : System A} → Produce cap s t → Inv cap s → Inv cap t
  Produce-Inv {s} (load_tail v e) inv =
      producer_moves (Producer.got_tail v s.tail) inv (rw e) refl refl
  Produce-Inv {s} (full e f) inv = producer_moves (Producer.done false) inv (rw e) refl tt
  Produce-Inv {s} (not_full {v} {t} e f) inv =
      producer_moves (Producer.has_room v t) inv (rw e) refl
        (rw e at inv.producer, room_left inv (rw e at inv.producer) f)
  Produce-Inv {s} (construct {v} {t} e f) inv =
      let ok = rw e at inv.producer in
      let n = length inv.rest in
      let c = length s.popped in
      record {
        rest = inv.rest;
        fifo = inv.fifo;
        room = inv.room;
        head = inv.head;
        tail = inv.tail;
        live = λ i lo hi.
            construct_live s.cells inv.rest v c t cap i (ok.0 ∙ inv.tail) inv.room
              (rw e at inv.live i lo) hi;
        free = λ i lo hi.
            construct_free s.cells inv.rest v c t cap i (ok.0 ∙ inv.tail)
              (λ lo'. (rw e at inv.free) i lo' hi) lo
              (omega (arith, vacated-le s.head s.consumer inv.rest inv.consumer));
        producer = ok;
        consumer = inv.consumer;
      }
  Produce-Inv {s} (store_tail {v} {t} e) inv =
      let ok = rw e at inv.producer in
      let n = length inv.rest in
      let c = length s.popped in
      record {
        rest = inv.rest ++ v ∷ [];
        fifo = rw inv.fifo (append_assoc s.popped inv.rest (v ∷ []));
        room = omega (arith, ok.1, length-append inv.rest (v ∷ []));
        head = inv.head;
        tail = rw (ok.0, inv.tail, mod-add-mod, length-append) (ap (λ k. k % cap) (omega arith));
        live = rw append-nil (rw e at inv.live);
        free = rw append-nil (rw e at inv.free);
        producer = tt;
        consumer = consumer_grows s.head v s.consumer inv.rest inv.consumer;
      }
  Produce-Inv {s} (Produce.return {b} e) inv = producer_moves Producer.idle inv (rw e) refl tt
