-- ===== src/MemoryPool/Vector/Sequence.antt =====
-- The operations of src/memory_pool/Vector.h on the sequence of objects that it holds.
use cpp_wtfsc.Base.{
  ℕ, zero, suc, ◌+◌, ◌-◌, ◌*◌, ◌^◌, ◌≤◌, ◌<◌, ◌≡◌, ◌⊎◌, inl, inr, refl, sym, ap, ap₂, ◌∙◌, true,
  false, List, [], ◌∷◌, ◌++◌, Option, none, some, ◌>>=◌, ◌==◌, leb, length, replicate,
  if◌then◌else◌, arith, append_assoc, length-append, length-replicate, Bool-cases,
}
use cpp_wtfsc.MemoryPool.Vector.{
  Vector, outside, construct_cell, copy_cells, destroy_cells, init, init_size, full_, capacity,
  expand, push_back, is_empty, pop_back, clear, destroy, reserve, copy,
}
use cpp_wtfsc.MemoryPool.Vector.Contents.{
  Holds, live, length-live, live-append, construct_middle, destroy_middle, copy_cells_lem,
  destroy_cells_lem, construct_from_lem, length-cells,
}

Nat-cases : (n : ℕ) → (n ≡ 0) ⊎ ((k : ℕ) × (n ≡ suc k))
Nat-cases zero = inl refl
Nat-cases (suc n) = inr (n, refl)

some_suc : (n : ℕ) → 1 ≤ n → (k : ℕ) × (n ≡ suc k)
some_suc zero h = absurd (omega arith)
some_suc (suc n) h = (n, refl)

module _ {A : Type 0} where
  replicate_split :
      (n k : ℕ) → replicate {A = Option A} (n + k) none ≡ replicate n none ++ replicate k none
  replicate_split zero k = let e : 0 + k ≡ k = omega arith in ap (λ j. replicate j none) e
  replicate_split (suc n) k =
      (let e : suc n + k ≡ suc (n + k) = omega arith in ap (λ j. replicate j none) e)
      ∙ ap (◌∷◌ none) (replicate_split n k)

  capacity_lem : (v : Vector A) (xs : List A) (h : Holds v xs) → length v.cells ≡ length xs + h.free
  capacity_lem v xs h = ap length h.cells_are ∙ length-cells xs h.free

  -- The loops over all objects of a vector.
  copy_all :
      (v : Vector A) (xs : List A) (n : ℕ)
      → Holds v xs
      → length xs < 2 ^ 31
      → length xs ≤ n
      → copy_cells (length xs) 0 v.cells (replicate n none)
        ≡ some (live xs ++ replicate (n - length xs) none)
  copy_all v xs n h small le =
      let split : n ≡ length xs + (n - length xs) = omega arith in
      ap₂ (copy_cells (length xs) 0) h.cells_are
        (ap (λ k. replicate k none) split ∙ replicate_split (length xs) (n - length xs))
      ∙ copy_cells_lem xs 0 [] [] (replicate h.free none) (replicate (n - length xs) none)
          (omega arith) refl refl

  destroy_all :
      (v : Vector A) (xs : List A) (h : Holds v xs)
      → destroy_cells v.last 0 v.cells ≡ some (replicate (length xs + h.free) none)
  destroy_all v xs h =
      ap₂ (λ n cells. destroy_cells n 0 cells) h.last_is h.cells_are
      ∙ destroy_cells_lem xs 0 [] (replicate h.free none) refl
      ∙ ap some (sym (replicate_split (length xs) h.free))

  -- `expand` keeps the objects and doubles the block of a full vector.
  expand_lem :
      (v : Vector A) (xs : List A) (h : Holds v xs)
      → length xs < 2 ^ 31
      → h.free ≡ 0
      → expand true v
        ≡ some (record { cells = live xs ++ replicate (length xs) none; last = length xs })
  unfolding expand
  expand_lem v xs h small e =
      let n : length v.cells ≡ length xs = capacity_lem v xs h ∙ omega arith in
      let twice : length xs * 2 - length xs ≡ length xs = omega arith in
      rw (n, copy_all v xs (length xs * 2) h small (omega arith), destroy_all v xs h, twice) refl

  -- `push_back` into a raw cell.
  push_room :
      (xs : List A) (free : ℕ) (x : A)
      → construct_cell (live xs ++ replicate (suc free) none) (length xs) x
        ≡ some (live (xs ++ x ∷ []) ++ replicate free none)
  push_room xs free x =
      construct_middle (live xs) (replicate free none) (length xs) x (length-live xs)
      ∙ ap some (
          sym (append_assoc (live xs) (some x ∷ []) (replicate free none))
          ∙ ap (λ l. l ++ replicate free none) (sym (live-append xs (x ∷ []))))

  full_lem : (v : Vector A) (xs : List A) (h : Holds v xs) → full_ v ≡ (h.free == 0)
  unfolding full_
  full_lem v xs h = rw (h.last_is, capacity_lem v xs h) (ground arith)

  abbrev with_last : ℕ → List (Option A) → Option (Vector A)
  with_last n cells = some (record { cells = cells; last = n })

  push_after :
      (xs : List A) (k : ℕ) (x : A)
      → length xs ≡ suc k
      → (construct_cell (live xs ++ replicate (length xs) none) (length xs) x
          >>= with_last (length xs + 1))
        ≡ with_last (length xs + 1) (live (xs ++ x ∷ []) ++ replicate k none)
  push_after xs k x one =
      ap
        (λ n.
          construct_cell (live xs ++ replicate n none) (length xs) x >>= with_last (length xs + 1))
        one
      ∙ ap (λ o. o >>= with_last (length xs + 1)) (push_room xs k x)

  -- `push_back` to a vector whose block has a cell is defined, and the vector then holds the new object
  -- last; a full block is doubled before.
  pub push_back_lem :
      (v : Vector A) (xs : List A) (x : A)
      → Holds v xs
      → length xs < 2 ^ 31
      → 1 ≤ capacity v
      → (w : Vector A) × (push_back true v (outside x) ≡ some w)
        × Holds w (xs ++ x ∷ [])
        × (capacity w ≡ (if full_ v then capacity v * 2 else capacity v))
  unfolding push_back capacity
  push_back_lem v xs x h small room = elim (Nat-cases h.free) [
    | inl e ↦
        let test : full_ v ≡ true = full_lem v xs h ∙ ground arith in
        let n : length v.cells ≡ length xs = capacity_lem v xs h ∙ omega arith in
        let (k, one) = some_suc (length xs) (omega arith) in
        (
          record { cells = live (xs ++ x ∷ []) ++ replicate k none; last = length xs + 1 },
          rw (test, expand_lem v xs h small e) (push_after xs k x one),
          record { free = k; cells_are = refl; last_is = sym (length-append xs (x ∷ [])) },
          rw (test, n)
              (length-cells (xs ++ x ∷ []) k ∙ (let l = length-append xs (x ∷ []) in omega arith)),
        )
    | inr (k, e) ↦
        let test : full_ v ≡ false = full_lem v xs h ∙ ground arith in
        let n : length v.cells ≡ length xs + suc k = capacity_lem v xs h ∙ omega arith in
        (
          record { cells = live (xs ++ x ∷ []) ++ replicate k none; last = length xs + 1 },
          rw (test, h.cells_are, h.last_is, e, push_room xs k x) refl,
          record { free = k; cells_are = refl; last_is = sym (length-append xs (x ∷ [])) },
          rw (test, n)
              (length-cells (xs ++ x ∷ []) k ∙ (let l = length-append xs (x ∷ []) in omega arith)),
        )
  ]

  -- `pop_back` removes the last object and leaves an empty vector as it is.
  pub pop_back_lem :
      (v : Vector A) (xs : List A) (x : A)
      → Holds v (xs ++ x ∷ [])
      → (w : Vector A) × (pop_back v ≡ some w) × Holds w xs × (capacity w ≡ capacity v)
  unfolding pop_back capacity is_empty
  pop_back_lem v xs x h =
      let n = h.last_is ∙ length-append xs (x ∷ []) in
      let test : (0 == v.last) ≡ false = ground arith in
      let at_last : v.last - 1 ≡ length xs = omega arith in
      let cells =
        h.cells_are
        ∙ ap (λ l. l ++ replicate h.free none) (live-append xs (x ∷ []))
        ∙ append_assoc (live xs) (some x ∷ []) (replicate h.free none) in
      (
        record { cells = live xs ++ replicate (suc h.free) none; last = length xs },
        rw
            (
              test,
              at_last,
              cells,
              destroy_middle (live xs) x (replicate h.free none) (length xs) (length-live xs),
            )
            refl,
        record { free = suc h.free; cells_are = refl; last_is = refl },
        length-cells xs (suc h.free)
            ∙ (let c = capacity_lem v (xs ++ x ∷ []) h in
                let l = length-append xs (x ∷ []) in omega arith),
      )

  pub pop_back_empty : (v : Vector A) → Holds v [] → pop_back v ≡ some v
  unfolding pop_back is_empty
  pop_back_empty v h = rw (h.last_is) refl

  pub clear_lem :
      (v : Vector A) (xs : List A)
      → Holds v xs
      → (w : Vector A) × (clear v ≡ some w) × Holds w [] × (capacity w ≡ capacity v)
  unfolding clear capacity
  clear_lem v xs h = (
    record { cells = replicate (length xs + h.free) none; last = 0 },
    rw (destroy_all v xs h) refl,
    record { free = length xs + h.free; cells_are = refl; last_is = refl },
    length-replicate (length xs + h.free) none ∙ sym (capacity_lem v xs h),
  )

  -- The destructor leaves no object in the block.
  pub destroy_lem :
      (v : Vector A) (xs : List A)
      → Holds v xs
      → destroy true v ≡ some (replicate (capacity v) none)
  unfolding destroy capacity
  destroy_lem v xs h =
      rw (destroy_all v xs h) (ap (λ n. some (replicate n none)) (sym (capacity_lem v xs h)))

  -- `reserve` keeps the objects, and the block has room for at least `n`.
  pub reserve_lem :
      (v : Vector A) (xs : List A) (n : ℕ)
      → Holds v xs
      → length xs < 2 ^ 31
      → (w : Vector A) × (reserve true v n ≡ some w)
        × Holds w xs
        × (capacity w ≡ (if leb n (capacity v) then capacity v else n))
  unfolding reserve capacity
  reserve_lem v xs n h small = elim (Bool-cases (leb n (length v.cells))) [
    | inl e ↦ (v, rw e refl, h, rw e refl)
    | inr e ↦
        let c = capacity_lem v xs h in
        let le : length xs ≤ n = ground arith in
        (
          record { cells = live xs ++ replicate (n - length xs) none; last = length xs },
          rw (e, destroy_all v xs h, h.last_is, copy_all v xs n h small le) refl,
          record { free = n - length xs; cells_are = refl; last_is = refl },
          rw e (length-cells xs (n - length xs) ∙ omega arith),
        )
  ]

  -- A copy holds the same objects in a block of the same size.
  pub copy_lem :
      (v : Vector A) (xs : List A)
      → Holds v xs
      → length xs < 2 ^ 31
      → (w : Vector A) × (copy v ≡ some w) × Holds w xs × (capacity w ≡ capacity v)
  unfolding copy capacity
  copy_lem v xs h small =
      let c = capacity_lem v xs h in
      (
        record { cells = live xs ++ replicate (length v.cells - length xs) none; last = length xs },
        rw (h.last_is, copy_all v xs (length v.cells) h small (omega arith)) refl,
        record { free = length v.cells - length xs; cells_are = refl; last_is = refl },
        length-cells xs (length v.cells - length xs) ∙ omega arith,
      )

  -- `Vector(size)` is defined and holds `size` values `T()`, in a block of twice the size.
  pub init_size_lem :
      (value : A) (n : ℕ)
      → n < 2 ^ 31
      → (w : Vector A) × (init_size value n ≡ some w)
        × Holds w (replicate n value)
        × (capacity w ≡ n * 2)
  unfolding init_size capacity
  init_size_lem value n small =
      let twice : n * 2 ≡ n + n = omega arith in
      (
        record { cells = live (replicate n value) ++ replicate n none; last = n },
        rw
            (
              twice,
              replicate_split n n,
              construct_from_lem n 0 value [] (replicate n none) (omega arith) refl,
            )
            refl,
        record { free = n; cells_are = refl; last_is = sym (length-replicate n value) },
        length-cells (replicate n value) n ∙ (let l = length-replicate n value in omega arith),
      )

  pub init_lem : Holds {A = A} init []
  unfolding init
  init_lem = record { free = 1; cells_are = refl; last_is = refl }
