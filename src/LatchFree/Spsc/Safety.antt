-- ===== src/LatchFree/Spsc/Safety.antt =====
-- What holds in every state that the two threads of src/latch-free/spsc-20.cpp can reach.
use native.Mathlib.Nat.{mod-add-mod, add-mod_right, mod-eq_of_lt, add-zero}
use native.Mathlib.Decide.{dec_lt}
use cpp_wtfsc.Base.{
  ℕ, suc, ◌+◌, ◌%◌, ◌<◌, ◌≡◌, ◌≢◌, ◌↔◌, ◌⊎◌, inl, inr, refl, List, [], ◌∷◌, ◌++◌, none, some,
  length, get_elem?, arith, length-append, append-nil, ◌∙◌, sym, ap,
}
use cpp_wtfsc.LatchFree.Spsc.{System, Producer, Consumer, Reach, start, produce, consume}
use cpp_wtfsc.LatchFree.Spsc.Invariant.{Inv, slot_ne}
use cpp_wtfsc.LatchFree.Spsc.Facts.{uncons}
use cpp_wtfsc.LatchFree.Spsc.Produces.{Produce-Inv}
use cpp_wtfsc.LatchFree.Spsc.Consumes.{Consume-Inv}

full_of : (c n cap : ℕ) → n < cap → (c + (n + 1)) % cap ≡ c % cap → n + 1 ≡ cap
full_of c n cap h e = elim (dec_lt (n + 1) cap) [
  | yes p ↦ absurd (slot_ne c 0 (n + 1) cap (omega arith) (omega arith) (rw add-zero (sym e)))
  | no p ↦ omega arith
]

module _ {A : Type 0} {cap : ℕ} (positive : 0 < cap) where
  Reach-Inv : {s : System A} → Reach cap s → Inv cap s
  Reach-Inv start = record {
    rest = [];
    fifo = refl;
    room = positive;
    head = sym (mod-eq_of_lt positive);
    tail = sym (mod-eq_of_lt positive);
    live = λ i lo hi. absurd (omega arith);
    free = λ i lo hi. refl;
    producer = tt;
    consumer = tt;
  }
  Reach-Inv (produce r st) = Produce-Inv st (Reach-Inv r)
  Reach-Inv (consume r st) = Consume-Inv st (Reach-Inv r)

  -- First in, first out: in every reachable state what was popped, followed by at most `cap - 1`
  -- values that are still queued, is what was pushed, in order.
  pub fifo :
      {s : System A}
      → Reach cap s
      → (queued : List A) × (s.pushed ≡ s.popped ++ queued) × (length queued < cap)
  fifo r = let inv = Reach-Inv r in (inv.rest, inv.fifo, inv.room)

  front_of : (rest : List A) → get_elem? rest 0 ≢ none → (v : A) × (get_elem? rest 0 ≡ some v)
  front_of [] ne = absurd (ne refl)
  front_of (x ∷ rest) ne = (x, refl)

  length-pos : (rest : List A) → get_elem? rest 0 ≢ none → 0 < length rest
  length-pos [] ne = absurd (ne refl)
  length-pos (x ∷ rest) ne = omega arith

  -- In every reachable state a producer that is about to construct finds no live object in its cell,
  -- and a consumer that is about to move finds one; so neither step is ever stuck.
  pub no_fault :
      {s : System A}
      → Reach cap s
      → ((v : A) (t : ℕ) → s.producer ≡ Producer.has_room v t → s.cells t ≡ none)
        × ((h : ℕ) → s.consumer ≡ Consumer.has_item h → (v : A) × (s.cells h ≡ some v))
  no_fault {s} r = (
    λ v t e.
        let ok = rw e at inv.producer in
        ap s.cells (ok.0 ∙ inv.tail)
        ∙ (rw e at inv.free) (length inv.rest) (rw append-nil (omega arith))
            (omega (arith, inv.room)),
    λ h e.
        let ok = rw e at inv.consumer in
        let (v, front) = front_of inv.rest ok.1 in
        let (r', cons) = uncons inv.rest v front in
        (
          v,
          ap s.cells (ok.0 ∙ inv.head ∙ ap (λ k. k % cap) (omega arith))
              ∙ inv.live 0 (rw e (omega arith)) (rw cons (omega arith))
              ∙ rw cons refl,
        ),
  )
    where
      inv : Inv cap s
      inv = Reach-Inv r

  -- A producer that is between its test and its store to `tail`, and a consumer that is between its test
  -- and its store to `head`, are never at the same cell, where the accesses to the two indices are
  -- sequentially consistent.
  pub no_race :
      {s : System A}
      → Reach cap s
      → (v w : A) (t h : ℕ)
      → (s.producer ≡ Producer.has_room v t) ⊎ (s.producer ≡ Producer.built v t)
      → (s.consumer ≡ Consumer.has_item h)
        ⊎ ((s.consumer ≡ Consumer.moved h w) ⊎ (s.consumer ≡ Consumer.destroyed h w))
      → t ≢ h
  no_race {s} r v w t h p c e =
      slot_ne (length s.popped) 0 (length inv.rest) cap front (omega (arith, inv.room))
        (rw add-zero (sym inv.head ∙ sym (at_head c) ∙ sym e ∙ at_tail p ∙ inv.tail))
    where
      inv : Inv cap s
      inv = Reach-Inv r

      at_tail :
          (s.producer ≡ Producer.has_room v t) ⊎ (s.producer ≡ Producer.built v t) → t ≡ s.tail
      at_tail (inl q) = (rw q at inv.producer).0
      at_tail (inr q) = (rw q at inv.producer).0

      at_head :
          (s.consumer ≡ Consumer.has_item h)
            ⊎ ((s.consumer ≡ Consumer.moved h w) ⊎ (s.consumer ≡ Consumer.destroyed h w))
          → h ≡ s.head
      at_head (inl q) = (rw q at inv.consumer).0
      at_head (inr (inl q)) = (rw q at inv.consumer).0
      at_head (inr (inr q)) = (rw q at inv.consumer).0

      there :
          (s.consumer ≡ Consumer.has_item h)
            ⊎ ((s.consumer ≡ Consumer.moved h w) ⊎ (s.consumer ≡ Consumer.destroyed h w))
          → get_elem? inv.rest 0 ≢ none
      there (inl q) = (rw q at inv.consumer).1
      there (inr (inl q)) = λ f. let g = (rw q at inv.consumer).1 in cc
      there (inr (inr q)) = λ f. let g = (rw q at inv.consumer).1 in cc

      front : 0 < length inv.rest
      front = length-pos inv.rest (there c)

  empty_of :
      (pushed popped rest : List A)
      → pushed ≡ popped ++ rest
      → length rest < cap
      → length popped % cap ≡ (length popped + length rest) % cap
      → pushed ≡ popped
  empty_of pushed popped [] f h e = f ∙ append-nil popped
  empty_of pushed popped (x ∷ rest) f h e = absurd (
      slot_ne (length popped) 0 (suc (length rest)) cap (omega arith) (omega arith) (rw add-zero e))

  -- The answer `false`: the test of `emplace` fails exactly when `cap - 1` values are queued at that
  -- moment, and that of `pop` exactly when none is.
  answers :
      {s : System A}
      → Reach cap s
      → ((v : A) (t : ℕ)
          → s.producer ≡ Producer.got_tail v t
          → ((t + 1) % cap ≡ s.head) ↔ (length s.pushed + 1 ≡ length s.popped + cap))
        × ((h : ℕ) → s.consumer ≡ Consumer.got_head h → (h ≡ s.tail) ↔ (s.pushed ≡ s.popped))
  answers {s} r = (
    λ v t e.
        let f : (t + 1) % cap ≡ (length s.popped + (length inv.rest + 1)) % cap =
          rw ((rw e at inv.producer), inv.tail, mod-add-mod) (ap (λ k. k % cap) (omega arith)) in
        (
          λ g. omega (
            arith,
            total,
            full_of (length s.popped) (length inv.rest) cap inv.room (sym f ∙ g ∙ inv.head),
          ),
          λ g.
              let whole : length inv.rest + 1 ≡ cap = omega (arith, total) in
              f ∙ rw (whole, add-mod_right) (sym inv.head),
        ),
    λ h e.
        let ok = rw e at inv.consumer in
        (
          λ g.
              empty_of s.pushed s.popped inv.rest inv.fifo inv.room
                (sym inv.head ∙ sym ok ∙ g ∙ inv.tail),
          λ g.
              let none_left : length s.popped + length inv.rest ≡ length s.popped =
                omega (arith, total, ap length g) in
              ok ∙ inv.head ∙ sym (inv.tail ∙ ap (λ k. k % cap) none_left),
        ),
  )
    where
      inv : Inv cap s
      inv = Reach-Inv r

      total : length s.pushed ≡ length s.popped + length inv.rest
      total = ap length inv.fifo ∙ length-append s.popped inv.rest
