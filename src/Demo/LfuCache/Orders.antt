-- ===== src/Demo/LfuCache/Orders.antt =====
-- The order of the lists of src/demo/lfu.cpp: their frequencies, which grow, and their numbers.
use cpp_wtfsc.Base.{
  ℕ, ◌+◌, ◌≡◌, ◌≢◌, ◌<◌, ◌≤◌, refl, sym, Bool-cases, inl, inr, List, [], ◌∷◌, none, some,
  if◌then◌else◌, ◌==◌, ==_iff, arith,
}
use cpp_wtfsc.Demo.LfuCache.{find, discard}

-- The number of a list by its frequency.
abbrev pub Order : Type 0
Order = List (ℕ × ℕ)

abbrev pub insert_order : Order → ℕ → ℕ → ℕ → Order
insert_order [] f f' i = (f', i) ∷ []
insert_order ((j, v) ∷ o) f f' i =
    if j == f then (j, v) ∷ (f', i) ∷ o else (j, v) ∷ insert_order o f f' i

-- No frequency and no number occurs twice; frequencies grow.
abbrev pub Absent : Order → ℕ → ℕ → Type 0
Absent [] f i = Unit
Absent ((j, v) ∷ o) f i = (f < j) × (v ≢ i) × Absent o f i

abbrev pub Ascends : Order → Type 0
Ascends [] = Unit
Ascends ((j, v) ∷ o) = Absent o j v × Ascends o

abbrev pub Unused : Order → ℕ → Type 0
Unused [] i = Unit
Unused ((j, v) ∷ o) i = (v ≢ i) × Unused o i

pub apart : (o : Order) (j v f i : ℕ) → Absent o j v → find o f ≡ some i → (j < f) × (v ≢ i)
apart [] j v f i b e = absurd (ground (arith, e))
apart ((a, w) ∷ o) j v f i b e = elim (Bool-cases (a == f)) [
  | inl q ↦ (ground (arith, q, b.0), λ g. b.1 (ground (arith, e, q, g)))
  | inr q ↦ apart o j v f i b.2 (ground (arith, e, q))
]

pub Absent-none : (o : Order) (j v f : ℕ) → Absent o j v → f ≤ j → find o f ≡ none
Absent-none [] j v f b h = refl
Absent-none ((a, w) ∷ o) j v f b h = ground (arith, b.0, Absent-none o j v f b.2 h)

pub find-discard_order :
    (o : Order) (f k : ℕ) → Ascends o → find (discard o f) k ≡ (if f == k then none else find o k)
find-discard_order [] f k a = ground arith
find-discard_order ((j, v) ∷ o) f k a =
    ground (arith, find-discard_order o f k a.1, Absent-none o j v k a.0)

pub find-insert_order :
    (o : Order) (f f' i i' k : ℕ)
    → find o f ≡ some i
    → find o f' ≡ none
    → find (insert_order o f f' i') k ≡ (if f' == k then some i' else find o k)
find-insert_order [] f f' i i' k e n = absurd (ground (arith, e))
find-insert_order ((j, v) ∷ o) f f' i i' k e n =
    ground (arith, e, n, find-insert_order o f f' i i' k)

Absent-discard : (o : Order) (j v f : ℕ) → Absent o j v → Absent (discard o f) j v
Absent-discard [] j v f b = tt
Absent-discard ((a, w) ∷ o) j v f b = elim (Bool-cases (a == f)) [
  | inl q ↦ rw q b.2
  | inr q ↦ rw q (b.0, b.1, Absent-discard o j v f b.2)
]

pub Ascends-discard : (o : Order) (f : ℕ) → Ascends o → Ascends (discard o f)
Ascends-discard [] f a = tt
Ascends-discard ((j, v) ∷ o) f a = elim (Bool-cases (j == f)) [
  | inl q ↦ rw q a.1
  | inr q ↦ rw q (Absent-discard o j v f a.0, Ascends-discard o f a.1)
]

pub Unused-discard : (o : Order) (f i : ℕ) → Unused o i → Unused (discard o f) i
Unused-discard [] f i u = tt
Unused-discard ((j, v) ∷ o) f i u = elim (Bool-cases (j == f)) [
  | inl q ↦ rw q u.1
  | inr q ↦ rw q (u.0, Unused-discard o f i u.1)
]

Absent-insert :
    (o : Order) (j v f f' i' : ℕ)
    → Absent o j v
    → j < f'
    → v ≢ i'
    → Absent (insert_order o f f' i') j v
Absent-insert [] j v f f' i' b h ne = (h, (λ q. ne (sym q)), tt)
Absent-insert ((a, w) ∷ o) j v f f' i' b h ne = elim (Bool-cases (a == f)) [
  | inl q ↦ rw q (b.0, b.1, (h, (λ g. ne (sym g)), b.2))
  | inr q ↦ rw q (b.0, b.1, Absent-insert o j v f f' i' b.2 h ne)
]

Absent-next :
    (o : Order) (f v i' : ℕ)
    → Absent o f v
    → find o (f + 1) ≡ none
    → Unused o i'
    → Absent o (f + 1) i'
Absent-next [] f v i' b n u = tt
Absent-next ((a, w) ∷ o) f v i' b n u =
    (ground (arith, b.0, n), (λ q. u.0 q), Absent-next o f v i' b.2 (ground (arith, n)) u.1)

pub Absent-first :
    (o : Order) (i : ℕ) → find o 0 ≡ none → find o 1 ≡ none → Unused o i → Absent o 1 i
Absent-first [] i z n u = tt
Absent-first ((a, w) ∷ o) i z n u =
    (ground (arith, z, n), u.0, Absent-first o i (ground (arith, z)) (ground (arith, n)) u.1)

pub Ascends-insert :
    (o : Order) (f i i' : ℕ)
    → Ascends o
    → find o f ≡ some i
    → find o (f + 1) ≡ none
    → Unused o i'
    → Ascends (insert_order o f (f + 1) i')
Ascends-insert [] f i i' a e n u = absurd (ground (arith, e))
Ascends-insert ((j, v) ∷ o) f i i' a e n u = elim (Bool-cases (j == f)) [
  | inl q ↦
      let same : j ≡ f = (==_iff j f).0 q in
      rw q (
        (omega arith, (λ g. u.0 (sym g)), a.0),
        (Absent-next o f v i' (rw same at a.0) (ground (arith, n, same)) u.1, a.1),
      )
  | inr q ↦
      let e' : find o f ≡ some i = ground (arith, e, q) in
      rw q (
        Absent-insert o j v f (f + 1) i' a.0 (omega (arith, (apart o j v f i a.0 e').0)) u.0,
        Ascends-insert o f i i' a.1 e' (ground (arith, n)) u.1,
      )
]

pub Unused-insert :
    (o : Order) (f f' i' i : ℕ) → Unused o i → i' ≢ i → Unused (insert_order o f f' i') i
Unused-insert [] f f' i' i u ne = (ne, tt)
Unused-insert ((j, v) ∷ o) f f' i' i u ne = elim (Bool-cases (j == f)) [
  | inl q ↦ rw q (u.0, (ne, u.1))
  | inr q ↦ rw q (u.0, Unused-insert o f f' i' i u.1 ne)
]
