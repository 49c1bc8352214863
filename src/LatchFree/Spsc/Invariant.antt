-- ===== src/LatchFree/Spsc/Invariant.antt =====
-- The invariant of the two threads of src/latch-free/spsc-20.cpp. With `c` values popped and `rest`
-- pushed but not popped, value `i` of `rest` lies in cell `(c + i) % cap`.
use cpp_wtfsc.Base.{
  ℕ, ◌+◌, ◌-◌, ◌%◌, ◌≤◌, ◌<◌, ◌≡◌, ◌≢◌, List, [], ◌∷◌, ◌++◌, Option, none, some, length, get_elem?,
  arith,
}
use native.Mathlib.Nat.{mod-add-mod, mod-eq_of_lt, mod-eq-sub-mod}
use native.Mathlib.Decide.{dec_lt}
use cpp_wtfsc.LatchFree.Spsc.{System, Producer, Consumer}

-- The value that is constructed, but not yet published by the store to `tail`.
abbrev pub unpublished : {A : Type 0} → Producer A → List A
unpublished (Producer.built v t) = v ∷ []
unpublished _ = []

-- 1 where the front cell is destroyed, but `head` has not moved on.
abbrev pub vacated : {A : Type 0} → Consumer A → ℕ
vacated (Consumer.destroyed h v) = 1
vacated _ = 0

-- What the consumer has established: the front value `o` is the one that it holds.
abbrev pub ConsumerOk : {A : Type 0} → ℕ → Option A → Consumer A → Type 0
ConsumerOk head o Consumer.idle = Unit
ConsumerOk head o (Consumer.got_head h) = h ≡ head
ConsumerOk head o (Consumer.has_item h) = (h ≡ head) × (o ≢ none)
ConsumerOk head o (Consumer.moved h v) = (h ≡ head) × (o ≡ some v)
ConsumerOk head o (Consumer.destroyed h v) = (h ≡ head) × (o ≡ some v)
ConsumerOk head o (Consumer.done r) = Unit

module _ {A : Type 0} (cap : ℕ) where
  -- What the producer has established, by where it stands.
  abbrev pub ProducerOk : ℕ → ℕ → Producer A → Type 0
  ProducerOk tail n Producer.idle = Unit
  ProducerOk tail n (Producer.got_tail v t) = t ≡ tail
  ProducerOk tail n (Producer.has_room v t) = (t ≡ tail) × (n + 1 < cap)
  ProducerOk tail n (Producer.built v t) = (t ≡ tail) × (n + 1 < cap)
  ProducerOk tail n (Producer.done b) = Unit

  pub record Inv (s : System A) : Type 0 where
    pub rest : List A
    pub fifo : s.pushed ≡ s.popped ++ rest
    pub room : length rest < cap
    pub head : s.head ≡ length s.popped % cap
    pub tail : s.tail ≡ (length s.popped + length rest) % cap
    pub live :
        (i : ℕ)
        → vacated s.consumer ≤ i
        → i < length (rest ++ unpublished s.producer)
        → s.cells ((length s.popped + i) % cap) ≡ get_elem? (rest ++ unpublished s.producer) i
    pub free :
        (i : ℕ)
        → length (rest ++ unpublished s.producer) ≤ i
        → i < cap + vacated s.consumer
        → s.cells ((length s.popped + i) % cap) ≡ none
    pub producer : ProducerOk s.tail (length rest) s.producer
    pub consumer : ConsumerOk s.head (get_elem? rest 0) s.consumer

round_ne : {cap h k : ℕ} → h < cap → 0 < k → k < cap → (h + k) % cap ≢ h
round_ne {cap} {h} {k} a b c = elim (dec_lt (h + k) cap) [
  | yes p ↦ omega (arith, mod-eq_of_lt p)
  | no p ↦ omega (
    arith,
    mod-eq-sub-mod {n = h + k} {m = cap} (omega arith),
    mod-eq_of_lt {n = h + k - cap} {m = cap} (omega arith),
  )
]

-- Two slots less than a round apart are different cells.
pub slot_ne : (c i j cap : ℕ) → i < j → j < i + cap → (c + i) % cap ≢ (c + j) % cap
slot_ne c i j cap h k e =
    round_ne {cap = cap} {h = (c + i) % cap} {k = j - i} (omega arith) (omega arith) (omega arith)
      (rw mod-add-mod (let f : c + i + (j - i) ≡ c + j = omega arith in rw (f, e)))
