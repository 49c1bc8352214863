-- ===== src/Matrix/Rows/Layout.antt =====
-- The arrays of a matrix at one row: what stands before it, in it and behind it, and what the loops
-- over the arrays do there.
use cpp_wtfsc.Base.{
  ℕ, zero, suc, ◌+◌, ◌-◌, ◌<◌, ◌≡◌, refl, true, false, List, [], ◌∷◌, ◌++◌, Option, some, ◌==◌, ltb,
  leb, length, map, arith, ap, length-append, append_assoc, ◌∙◌, sym, Bool-cases, inl, inr,
}
use cpp_wtfsc.Base.Arrays.{set-append_middle}
use cpp_wtfsc.Matrix.Result.{ok, to, at, at-append_middle, at-append_second, at-map_middle}
use cpp_wtfsc.Matrix.Scalar.{Scalar}
use cpp_wtfsc.Matrix.Storage.{increment_from, decrement_from, find_from, locate_from}
use cpp_wtfsc.Matrix.Rows.{Row, IsRow, lookup, entries, offsets}
use cpp_wtfsc.Matrix.Rows.Put.{count_below, last_read, lookup_below}

module _ {T : Type 0} where
  -- The rows above a row, that row, and those below it.
  pub record Around (rs : List (Row T)) (k : ℕ) : Type 0 where
    pub above : List (Row T)
    pub row : Row T
    pub below : List (Row T)
    pub whole : rs ≡ above ++ row ∷ below
    pub count : length above ≡ k

  pub around : (rs : List (Row T)) (k : ℕ) → k < length rs → Around rs k
  around [] k h = absurd (omega arith)
  around (r ∷ rs) zero h = record { above = []; row = r; below = rs; whole = refl; count = refl }
  around (r ∷ rs) (suc k) h =
      let a = around rs k (omega arith) in
      record {
        above = r ∷ a.above;
        row = a.row;
        below = a.below;
        whole = ap (◌∷◌ r) a.whole;
        count = ap suc a.count;
      }

  pub entries-append : (xs ys : List (Row T)) → entries (xs ++ ys) ≡ entries xs ++ entries ys
  entries-append [] ys = refl
  entries-append (r ∷ xs) ys = rw (entries-append xs ys, append_assoc)

  -- The beginnings of some rows alone.
  abbrev pub heads : ℕ → List (Row T) → List ℕ
  heads b [] = []
  heads b (r ∷ rs) = b ∷ heads (b + length r) rs

  pub length-heads : (b : ℕ) (rs : List (Row T)) → length (heads b rs) ≡ length rs
  length-heads b [] = refl
  length-heads b (r ∷ rs) = ap suc (length-heads (b + length r) rs)

  pub offsets-append :
      (b : ℕ) (xs ys : List (Row T))
      → offsets b (xs ++ ys) ≡ heads b xs ++ offsets (b + length (entries xs)) ys
  offsets-append b [] ys = ap (λ k. offsets k ys) (omega arith)
  offsets-append b (r ∷ xs) ys =
      rw (offsets-append (b + length r) xs ys, length-append)
        (ap (λ k. b ∷ (heads (b + length r) xs ++ offsets k ys)) (omega arith))

  pub length-offsets : (b : ℕ) (rs : List (Row T)) → length (offsets b rs) ≡ length rs + 1
  length-offsets b [] = omega arith
  length-offsets b (r ∷ rs) = omega (arith, length-offsets (b + length r) rs)

  offsets-suc : (b : ℕ) (rs : List (Row T)) → offsets (b + 1) rs ≡ map (λ k. k + 1) (offsets b rs)
  offsets-suc b [] = refl
  offsets-suc b (r ∷ rs) =
      let e : b + 1 + length r ≡ b + length r + 1 = omega arith in
      ap (◌∷◌ (b + 1)) (ap (λ k. offsets k rs) e ∙ offsets-suc (b + length r) rs)

-- The loops over `rows` reach every element from their first index on.
increment_lem :
    (pre suf : List ℕ)
    → increment_from (length suf) (length pre) (pre ++ suf) ≡ ok (pre ++ map (λ k. k + 1) suf)
unfolding increment_from
increment_lem pre [] = refl
increment_lem pre (k ∷ suf) =
    rw (at-append_middle, set-append_middle)
      (rw (length-append, append_assoc, append_assoc) at (increment_lem (pre ++ (k + 1) ∷ []) suf))

decrement_lem :
    (pre suf : List ℕ)
    → decrement_from (length suf) (length pre) (pre ++ map (λ k. k + 1) suf) ≡ ok (pre ++ suf)
unfolding decrement_from
decrement_lem pre [] = refl
decrement_lem pre (k ∷ suf) =
    let back : k + 1 - 1 ≡ k = omega arith in
    rw (at-append_middle, set-append_middle, back)
      (rw (length-append, append_assoc, append_assoc) at (decrement_lem (pre ++ k ∷ []) suf))

module _ {T : Type 0} (b : ℕ) (above : List (Row T)) (row row' : Row T) (below : List (Row T)) where
  module _ (grown : length row' ≡ length row + 1) where
    front : List ℕ
    front = heads b above ++ (b + length (entries above)) ∷ []

    short : List ℕ
    short = offsets (b + length (entries above) + length row) below

    offsets-short : offsets b (above ++ row ∷ below) ≡ front ++ short
    unfolding front short
    offsets-short = offsets-append b above (row ∷ below) ∙ sym (append_assoc (heads b above) _ _)

    offsets_long : offsets b (above ++ row' ∷ below) ≡ front ++ map (λ k. k + 1) short
    unfolding front short
    offsets_long =
        offsets-append b above (row' ∷ below)
        ∙ ap (λ s. heads b above ++ (b + length (entries above)) ∷ s)
            (ap (λ k. offsets k below) (rw grown (omega arith)) ∙ offsets-suc _ below)
        ∙ sym (append_assoc (heads b above) _ _)

    length-front : length front ≡ length above + 1
    unfolding front
    length-front = rw (length-append, length-heads)

    length-short : length short ≡ length below + 1
    unfolding short
    length-short = length-offsets _ below

    -- One entry more in a row: every later offset rises by one.
    pub increment-offsets :
        increment_from (length below + 1) (length above + 1) (offsets b (above ++ row ∷ below))
        ≡ ok (offsets b (above ++ row' ∷ below))
    increment-offsets =
        rw (offsets-short, offsets_long, ← length-front, ← length-short) (increment_lem front short)

    -- One entry less in a row: every later offset falls by one.
    pub decrement-offsets :
        decrement_from (length below + 1) (length above + 1) (offsets b (above ++ row' ∷ below))
        ≡ ok (offsets b (above ++ row ∷ below))
    decrement-offsets =
        rw (offsets-short, offsets_long, ← length-front, ← length-short) (decrement_lem front short)

module _ {T : Type 0} where
  abbrev pub columns : Row T → List ℕ
  columns = map (λ e. e.0)

  abbrev pub values : Row T → List T
  values = map (λ e. e.1)

  -- The loop of `set` stops at the first entry whose column is not below `col`.
  pub locate_lem :
      (pre mid post : Row T) (cur : Option ℕ) (col : ℕ)
      → locate_from (to (columns (pre ++ (mid ++ post)))) (length mid) (length pre) cur col
        ≡ ok (length pre + count_below mid col, last_read mid cur col)
  unfolding locate_from
  locate_lem pre [] post cur col = ap (λ k. ok (k, cur)) (omega arith)
  locate_lem pre ((c, v) ∷ mid) post cur col = rw at-map_middle (
      let ih =
        rw (length-append, append_assoc) at
          (locate_lem (pre ++ (c, v) ∷ []) mid post (some c) col) in
      elim (Bool-cases (ltb c col)) [
        | inl e ↦
            let f : leb col c ≡ false = ground arith in
            rw (e, f) (ih ∙ ap (λ k. ok (k, last_read mid (some c) col)) (omega arith))
        | inr e ↦
            let f : leb col c ≡ true = ground arith in
            rw (e, f) (ap (λ k. ok (k, some c)) (omega arith))
      ])

  -- The loop of `get` returns the value of the column, or `T()`.
  pub find_lem :
      (scalar : Scalar T) (lo hi : ℕ) (pre mid post : Row T) (col : ℕ)
      → IsRow scalar lo hi mid
      → find_from scalar
          (to (columns (pre ++ (mid ++ post))))
          (to (values (pre ++ (mid ++ post))))
          (length mid)
          (length pre)
          col
        ≡ ok (lookup scalar mid col)
  unfolding find_from lookup
  find_lem scalar lo hi pre [] post col v = refl
  find_lem scalar lo hi pre ((c, x) ∷ mid) post col v =
      let ih =
        rw (length-append, append_assoc) at
          (find_lem scalar (suc c) hi (pre ++ (c, x) ∷ []) mid post col v.3) in
      simp at-map_middle (elim (Bool-cases (c == col)) [
        | inl e ↦ rw e
        | inr e ↦ elim (Bool-cases (ltb col c)) [
          | inl f ↦
              rw (e, f) (ap ok (sym (lookup_below scalar (suc c) hi mid col v.3 (ground arith))))
          | inr f ↦ rw (e, f) ih
        ]
      ])

  pub entries_around :
      (above : List (Row T)) (r : Row T) (below : List (Row T))
      → entries (above ++ r ∷ below) ≡ entries above ++ (r ++ entries below)
  entries_around above r below = entries-append above (r ∷ below)

  -- Where a row begins and ends.
  pub at-offsets :
      (b : ℕ) (above : List (Row T)) (r : Row T) (below : List (Row T))
      → (at (offsets b (above ++ r ∷ below)) (length above) ≡ ok (b + length (entries above)))
        × (at (offsets b (above ++ r ∷ below)) (length above + 1)
            ≡ ok (b + length (entries above) + length r))
  at-offsets b above r below = (
    rw (offsets-append, ← length-heads b above, at-append_middle),
    rw (offsets-append, ← length-heads b above) (next below),
  )
    where
      next :
          (rs : List (Row T))
          → at
              (heads b above ++ offsets (b + length (entries above)) (r ∷ rs))
              (length (heads b above) + 1)
            ≡ ok (b + length (entries above) + length r)
      next [] = at-append_second (heads b above) _ _ []
      next (x ∷ rs) = at-append_second (heads b above) _ _ _
