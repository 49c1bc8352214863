-- ===== src/LatchFree/Spsc/Tests.antt =====
-- A run of the queue of src/latch-free/spsc-20.cpp with three cells: 7 is pushed, then the producer
-- is about to construct 8 while the consumer is about to move 7.
use cpp_wtfsc.Base.{ℕ, ◌<◌, ◌≡◌, ◌≢◌, inl, refl, List, [], ◌∷◌, ◌++◌, none, some, length, arith}
use cpp_wtfsc.LatchFree.Spsc.{
  System, Producer, Consumer, Produce, Reach, write, start, produce, consume, load_tail, not_full,
  construct, store_tail, load_head, not_empty,
}
use cpp_wtfsc.LatchFree.Spsc.Safety.{fifo, no_fault, no_race}

abbrev both_busy : System ℕ
both_busy = record {
  cells = write (λ i. none) 0 (some 7);
  head = 0;
  tail = 1;
  producer = Producer.has_room 8 1;
  consumer = Consumer.has_item 0;
  pushed = 7 ∷ [];
  popped = [];
}

both_busy-Reach : Reach 3 both_busy
both_busy-Reach =
    let r1 = produce start (load_tail 7 refl) in
    let r2 = produce r1 (not_full refl (omega arith)) in
    let r3 = produce r2 (construct refl refl) in
    let r4 = produce r3 (store_tail refl) in
    let r5 = produce r4 (Produce.return refl) in
    let r6 = produce r5 (load_tail 8 refl) in
    let r7 = consume r6 (load_head refl) in
    let r8 = produce r7 (not_full refl (omega arith)) in consume r8 (not_empty refl (omega arith))

fifo_example : (queued : List ℕ) × (7 ∷ [] ≡ [] ++ queued) × (length queued < 3)
fifo_example = fifo (omega arith) both_busy-Reach

no_fault_example :
    ((v t : ℕ) → both_busy.producer ≡ Producer.has_room v t → both_busy.cells t ≡ none)
    × ((h : ℕ) → both_busy.consumer ≡ Consumer.has_item h → (v : ℕ) × (both_busy.cells h ≡ some v))
no_fault_example = no_fault (omega arith) both_busy-Reach

no_race_example : ◌≢◌ {A = ℕ} 1 0
no_race_example = no_race (omega arith) both_busy-Reach 8 7 1 0 (inl refl) (inl refl)
