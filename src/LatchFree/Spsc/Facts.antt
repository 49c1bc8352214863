-- ===== src/LatchFree/Spsc/Facts.antt =====
-- What a write to one cell, and a move of one end, do to the other cells of the queue in
-- src/latch-free/spsc-20.cpp.
use cpp_wtfsc.Base.{
  ℕ, ◌+◌, ◌%◌, ◌≤◌, ◌<◌, ◌≡◌, ◌≢◌, refl, List, [], ◌∷◌, ◌++◌, Option, none, some, length, get_elem?,
  arith, length-append, append-nil, get_elem?-append, ap,
}
use native.Mathlib.Nat.{add-mod_right, add-zero}
use native.Mathlib.Decide.{dec_lt}
use cpp_wtfsc.LatchFree.Spsc.{Producer, Consumer, write}
use cpp_wtfsc.LatchFree.Spsc.Invariant.{slot_ne, unpublished, vacated, ProducerOk, ConsumerOk}

module _ {A : Type 0} where
  pub vacated-le :
      (head : ℕ) (k : Consumer A) (rest : List A)
      → ConsumerOk head (get_elem? rest 0) k
      → vacated k ≤ length rest
  vacated-le head (Consumer.destroyed h v) [] ok = absurd (ground arith)
  vacated-le head (Consumer.destroyed h v) (x ∷ rest) ok = omega arith
  vacated-le head _ rest ok = omega arith

  -- A value pushed behind them leaves the consumer's values in front.
  pub consumer_grows :
      (head : ℕ) (v : A) (k : Consumer A) (rest : List A)
      → ConsumerOk head (get_elem? rest 0) k
      → ConsumerOk head (get_elem? (rest ++ v ∷ []) 0) k
  consumer_grows head v Consumer.idle rest ok = ok
  consumer_grows head v (Consumer.got_head h) rest ok = ok
  consumer_grows head v (Consumer.done o) rest ok = ok
  consumer_grows head v _ [] ok = absurd (ground arith)
  consumer_grows head v _ (x ∷ rest) ok = ok

  -- The front value is there if `head` and `tail` differ.
  pub front_of_ne :
      (rest : List A) (c cap h tail : ℕ)
      → h ≡ c % cap
      → tail ≡ (c + length rest) % cap
      → h ≢ tail
      → get_elem? rest 0 ≢ none
  front_of_ne [] c cap h tail e f ne = absurd (ne (rw (e, f) (ap (λ k. k % cap) (omega arith))))
  front_of_ne (x ∷ rest) c cap h tail e f ne = λ p. ground arith

  pub front-append :
      (rest more : List A) (v : A)
      → get_elem? rest 0 ≢ none
      → get_elem? (rest ++ more) 0 ≡ some v
      → get_elem? rest 0 ≡ some v
  front-append [] more v ne e = absurd (ne refl)
  front-append (x ∷ rest) more v ne e = e

  pub length-unpublished-le :
      (tail n cap : ℕ) (p : Producer A)
      → n < cap
      → ProducerOk cap tail n p
      → n + length (unpublished p) ≤ cap
  length-unpublished-le tail n cap (Producer.built v t) h ok = omega arith
  length-unpublished-le tail n cap _ h ok = omega arith

  pub producer_shrinks :
      (tail n k cap : ℕ) (p : Producer A)
      → k ≤ n
      → ProducerOk cap tail n p
      → ProducerOk cap tail k p
  producer_shrinks tail n k cap (Producer.has_room v t) h ok = omega arith
  producer_shrinks tail n k cap (Producer.built v t) h ok = omega arith
  producer_shrinks tail n k cap (Producer.got_tail v t) h ok = ok
  producer_shrinks tail n k cap _ h ok = tt

  pub front_in : (rest more : List A) → get_elem? rest 0 ≢ none → 0 < length (rest ++ more)
  front_in [] more ne = absurd (ne refl)
  front_in (x ∷ rest) more ne = omega arith

  pub destroy_live :
      (cells : ℕ → Option A) (c h cap i : ℕ) (o : Option A)
      → h ≡ c % cap
      → 1 ≤ i
      → i < cap
      → cells ((c + i) % cap) ≡ o
      → write cells h none ((c + i) % cap) ≡ o
  destroy_live cells c h cap i o e lo hi live = ground (arith, slot_ne c 0 i cap, add-zero c)

  pub destroy_free :
      (cells : ℕ → Option A) (c h cap i : ℕ)
      → h ≡ c % cap
      → (i < cap → cells ((c + i) % cap) ≡ none)
      → i < cap + 1
      → write cells h none ((c + i) % cap) ≡ none
  destroy_free cells c h cap i e free hi = elim (dec_lt i cap) [
    | yes p ↦ ground (arith, free p)
    | no p ↦ let last : c + i ≡ c + cap = omega arith in rw (last, add-mod_right, e) (ground arith)
  ]

  pub uncons : (rest : List A) (v : A) → get_elem? rest 0 ≡ some v → (r : List A) × (rest ≡ v ∷ r)
  uncons [] v e = absurd (ground arith)
  uncons (x ∷ rest) v e = (rest, ground arith)

module _ {A : Type 0} (cells : ℕ → Option A) (rest : List A) (v : A) (c t cap i : ℕ) where
  pub construct_live :
      t ≡ (c + length rest) % cap
      → length rest < cap
      → (i < length (rest ++ []) → cells ((c + i) % cap) ≡ get_elem? (rest ++ []) i)
      → i < length (rest ++ v ∷ [])
      → write cells t (some v) ((c + i) % cap) ≡ get_elem? (rest ++ v ∷ []) i
  construct_live e room live h = rw get_elem?-append (
      ground
        (arith, rw append-nil at live, length-append rest (v ∷ []), slot_ne c i (length rest) cap))

  pub construct_free :
      t ≡ (c + length rest) % cap
      → (length (rest ++ []) ≤ i → cells ((c + i) % cap) ≡ none)
      → length (rest ++ v ∷ []) ≤ i
      → i < cap + length rest
      → write cells t (some v) ((c + i) % cap) ≡ none
  construct_free e free lo hi =
      ground
        (arith, rw append-nil at free, length-append rest (v ∷ []), slot_ne c (length rest) i cap)
