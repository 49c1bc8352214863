-- ===== src/Matrix/Sparse/Edit.antt =====
-- The arrays of a matrix at one row, and what an insertion, a removal and an assignment do there.
-- Offsets and columns count from `b`: 1 in src/matrix/sparse_matrix.cpp, and 0 in
-- src/parallel-sparse-matrix/sparse_matrix.h.
use cpp_wtfsc.Base.{
  ℕ, zero, suc, ◌+◌, ◌-◌, ◌≤◌, ◌<◌, ◌≡◌, ◌≢◌, not, inl, inr, refl, sym, ap, ◌∙◌, List, [], ◌∷◌,
  ◌++◌, length, some, Option, none, if◌then◌else◌, set as set_elem, arith, true, false, Bool-cases,
  length-append, length-set,
}
use cpp_wtfsc.Matrix.Result.{Result, ok, to, at}
use cpp_wtfsc.Matrix.Scalar.{Scalar}
use cpp_wtfsc.Matrix.Storage.{insert_at, remove_at, find_from, locate_from}
use cpp_wtfsc.Matrix.Rows.{Row, IsRow, lookup, put, entries, offsets}
use cpp_wtfsc.Matrix.Rows.Put.{
  count_below, last_read, put_absent, put_present, count_below-le, put-IsRow,
}
use cpp_wtfsc.Matrix.Rows.Layout.{
  columns, values, entries_around, at-offsets, find_lem, locate_lem, increment-offsets,
  decrement-offsets,
}
use cpp_wtfsc.Matrix.Sparse.{SparseMatrix, insert, remove, overwrite, stopped_at}
use cpp_wtfsc.Matrix.Rows.Splice.{
  AllRows-middle, AllRows-replace, entries_nil, entries_only, vector_insert_lem, vector_erase_lem,
  vector_assign_lem, columns_same, offsets_same, length-insert_at, length-remove_at,
}
use cpp_wtfsc.Matrix.Sparse.Represents.{Represents, Holds}

stopped_at_sound : (o : Option ℕ) (col : ℕ) → stopped_at o col ≡ true → o ≡ some col
stopped_at_sound none col e = ground arith
stopped_at_sound (some c) col e = ground arith

insert_at_nil :
    {A : Type 0} (r : List A) (k : ℕ) (e : A) → r ≡ [] → k ≤ length r → insert_at r k e ≡ e ∷ []
insert_at_nil [] zero e f h = refl
insert_at_nil [] (suc k) e f h = absurd (omega arith)
insert_at_nil (x ∷ r) k e f h = absurd (ground arith)

not_empty : {A : Type 0} (r : List A) (k : ℕ) → r ≡ [] → k < length r → ⊥
not_empty [] k e h = omega arith
not_empty (x ∷ r) k e h = ground arith

module _ {T : Type 0} (scalar : Scalar T) where
  module _ (b : ℕ) (a : SparseMatrix T) (above : List (Row T)) (r : Row T) (below : List (Row T))
      (rep : Represents scalar b a (above ++ r ∷ below)) (col : ℕ) (lo : b ≤ col)
      (hi : col < a.n + b) where
    pub above_in : length above + 1 ≤ a.m
    above_in = let h = rep.height in omega (arith, length-append above (r ∷ below))

    pub starts_at :
        (at a.rows (length above) ≡ ok (b + length (entries above)))
        × (at a.rows (length above + 1) ≡ ok (b + length (entries above) + length r))
    starts_at = (
      ap (λ s. at s (length above)) rep.starts ∙ (at-offsets b above r below).0,
      ap (λ s. at s (length above + 1)) rep.starts ∙ (at-offsets b above r below).1,
    )

    pub found :
        Holds a.cols a.vals (entries (above ++ r ∷ below))
        → find_from scalar a.cols a.vals (length r) (length (entries above)) col
          ≡ ok (lookup scalar r col)
    unfolding find_from lookup
    found (inl (e, f)) =
        rw (e, f, entries_around)
          (find_lem scalar b (a.n + b) (entries above) r (entries below) col
            (AllRows-middle scalar _ _ above r below rep.each))
    found (inr (e, f, g)) = rw (entries_nil above r below g) refl

    -- The loop of `set` stops at the first entry that is not before the column.
    pub located :
        (cur : Option ℕ)
        → locate_from a.cols (length r) (length (entries above)) cur col
          ≡ ok (length (entries above) + count_below r col, last_read r cur col)
    unfolding locate_from
    located cur = go rep.holds
      where
        go :
            Holds a.cols a.vals (entries (above ++ r ∷ below))
            → locate_from a.cols (length r) (length (entries above)) cur col
              ≡ ok (length (entries above) + count_below r col, last_read r cur col)
        go (inl (e, f)) =
            rw (e, entries_around) (locate_lem (entries above) r (entries below) cur col)
        go (inr (e, f, g)) = rw (entries_nil above r below g) (ap (λ k. ok (k, cur)) (omega arith))

    -- A call that returned a matrix of the same size, in which the row is `r'`.
    abbrev pub Replaces : Row T → Result (SparseMatrix T) → Type 0
    Replaces r' out =
        (a' : SparseMatrix T) × (out ≡ ok a')
        × (a'.m ≡ a.m)
        × (a'.n ≡ a.n)
        × Represents scalar b a' (above ++ r' ∷ below)

    height : (r' : Row T) → length (above ++ r' ∷ below) ≡ a.m
    height r' =
        let h = rep.height in
        omega (arith, length-append above (r ∷ below), length-append above (r' ∷ below))

    rounds : a.m + 1 - (length above + 1) ≡ length below + 1
    rounds = let h = rep.height in omega (arith, length-append above (r ∷ below))

    -- The matrix whose arrays spell the rows with `r'` in place of `r`.
    abbrev spelled : Row T → SparseMatrix T
    spelled r' = record a {
      vals = to (values (entries (above ++ r' ∷ below)));
      cols = to (columns (entries (above ++ r' ∷ below)));
      rows = offsets b (above ++ r' ∷ below);
    }

    spelled-Represents :
        (r' : Row T)
        → IsRow scalar b (a.n + b) r'
        → Represents scalar b (spelled r') (above ++ r' ∷ below)
    spelled-Represents r' v = record {
      height = height r';
      starts = refl;
      holds = inl (refl, refl);
      each = AllRows-replace scalar b (a.n + b) above r r' below rep.each v;
    }

    insert_spells :
        (k : ℕ) (val : T)
        → k ≤ length r
        → insert scalar a (length (entries above) + k) (length above + 1) col val
          ≡ ok (spelled (insert_at r k (col, val)))
    unfolding insert
    insert_spells k val h = go rep.holds
      where
        go :
            Holds a.cols a.vals (entries (above ++ r ∷ below))
            → insert scalar a (length (entries above) + k) (length above + 1) col val
              ≡ ok (spelled (insert_at r k (col, val)))
        go (inl (e, f)) = rw (
          f,
          e,
          rounds,
          rep.starts,
          entries_around above r below,
          entries_around above (insert_at r k (col, val)) below,
          vector_insert_lem (λ e. e.1) (entries above) r (entries below) k (col, val) h,
          vector_insert_lem (λ e. e.0) (entries above) r (entries below) k (col, val) h,
          increment-offsets b above r (insert_at r k (col, val)) below
              (length-insert_at r k (col, val) h),
        )
        go (inr (e, f, g)) =
            let single : insert_at r k (col, val) ≡ (col, val) ∷ [] =
              insert_at_nil r k (col, val) (entries_nil above r below g) h in
            rw (
              f,
              rounds,
              rep.starts,
              increment-offsets b above r (insert_at r k (col, val)) below
                  (length-insert_at r k (col, val) h),
              single,
              entries_only above r below (col, val) g,
            )

    remove_spells :
        (k : ℕ)
        → k < length r
        → remove scalar a (length (entries above) + k) (length above + 1)
          ≡ ok (spelled (remove_at r k))
    unfolding remove
    remove_spells k h = go rep.holds
      where
        go :
            Holds a.cols a.vals (entries (above ++ r ∷ below))
            → remove scalar a (length (entries above) + k) (length above + 1)
              ≡ ok (spelled (remove_at r k))
        go (inl (e, f)) = rw (
          f,
          e,
          rounds,
          rep.starts,
          entries_around above r below,
          entries_around above (remove_at r k) below,
          vector_erase_lem (λ e. e.1) (entries above) r (entries below) k h,
          vector_erase_lem (λ e. e.0) (entries above) r (entries below) k h,
          decrement-offsets b above (remove_at r k) r below (sym (length-remove_at r k h)),
        )
        go (inr (e, f, g)) = absurd (not_empty r k (entries_nil above r below g) h)

    overwrite_spells :
        (k : ℕ) (val : T)
        → k < length r
        → columns (set_elem r k (col, val)) ≡ columns r
        → overwrite scalar a (length (entries above) + k) val
          ≡ ok (spelled (set_elem r k (col, val)))
    unfolding overwrite
    overwrite_spells k val h same = go rep.holds
      where
        go :
            Holds a.cols a.vals (entries (above ++ r ∷ below))
            → overwrite scalar a (length (entries above) + k) val
              ≡ ok (spelled (set_elem r k (col, val)))
        go (inl (e, f)) =
            rw
              (
                f,
                entries_around above r below,
                vector_assign_lem (λ e. e.1) (entries above) r (entries below) k (col, val) h,
              )
              (λ i. ok (record a {
                vals = to (values (sym (entries_around above (set_elem r k (col, val)) below) i));
                cols = (e ∙ ap to (columns_same above r _ below (sym same))) i;
                rows =
                    (rep.starts ∙ offsets_same b above r _ below (sym (length-set r k (col, val))))
                      i;
              }))
        go (inr (e, f, g)) = absurd (not_empty r k (entries_nil above r below g) h)

    -- What `set` does at the position where its loop stopped: the row has the new value in the column.
    pub stored :
        (cur : Option ℕ) (val : T)
        → cur ≢ some col
        → Replaces (put scalar r col val) (
            if not (stopped_at (last_read r cur col) col)
            then (if not (scalar.beq val scalar.zero)
                then insert scalar a
                    (length (entries above) + count_below r col)
                    (length above + 1)
                    col
                    val
                else ok a)
            else (if scalar.beq val scalar.zero
                then remove scalar a (length (entries above) + count_below r col) (length above + 1)
                else overwrite scalar a (length (entries above) + count_below r col) val))
    stored cur val fresh = elim (Bool-cases (stopped_at (last_read r cur col) col)) [
      | inr far ↦ elim (Bool-cases (scalar.beq val scalar.zero)) [
        | inl zero_val ↦
            let q = absent far ∙ rw zero_val refl in (a, rw (far, zero_val), refl, refl, rw q rep)
        | inr some_val ↦
            let q = absent far ∙ rw some_val refl in
            (
              spelled (insert_at r (count_below r col) (col, val)),
              rw (far, some_val)
                  (insert_spells (count_below r col) val (count_below-le scalar col val r)),
              refl,
              refl,
              rw q (spelled-Represents _ (rw q at put_row)),
            )
      ]
      | inl here ↦ elim (Bool-cases (scalar.beq val scalar.zero)) [
        | inl zero_val ↦
            let (p, inside, same) = present here in
            let q = p ∙ rw zero_val refl in
            (
              spelled (remove_at r (count_below r col)),
              rw (here, zero_val) (remove_spells (count_below r col) inside),
              refl,
              refl,
              rw q (spelled-Represents _ (rw q at put_row)),
            )
        | inr some_val ↦
            let (p, inside, same) = present here in
            let q = p ∙ rw some_val refl in
            (
              spelled (set_elem r (count_below r col) (col, val)),
              rw (here, some_val) (overwrite_spells (count_below r col) val inside same),
              refl,
              refl,
              rw q (spelled-Represents _ (rw q at put_row)),
            )
      ]
    ]
      where
        put_row : IsRow scalar b (a.n + b) (put scalar r col val)
        put_row =
            put-IsRow scalar b (a.n + b) r col val lo (omega arith)
              (AllRows-middle scalar b (a.n + b) above r below rep.each)

        absent :
            stopped_at (last_read r cur col) col ≡ false
            → put scalar r col val ≡ (
                if scalar.beq val scalar.zero
                then r
                else insert_at r (count_below r col) (col, val))
        absent far = put_absent scalar col val r cur (λ e. let f = rw e at far in ground arith)

        present :
            stopped_at (last_read r cur col) col ≡ true
            → (put scalar r col val ≡ (
                if scalar.beq val scalar.zero
                then remove_at r (count_below r col)
                else set_elem r (count_below r col) (col, val)))
              × (count_below r col < length r)
              × (columns (set_elem r (count_below r col) (col, val)) ≡ columns r)
        present here =
            put_present scalar col val r cur fresh (stopped_at_sound (last_read r cur col) col here)
