-- ===== src/Matrix/Sparse/VectorProduct.antt =====
-- The product with a vector of src/matrix/sparse_matrix.cpp against the dense sum.
use cpp_wtfsc.Base.{
  ℕ, ◌+◌, ◌-◌, ◌≤◌, ◌≡◌, inl, inr, refl, ap, ◌∙◌, sym, List, [], ◌∷◌, ◌++◌, length, map,
  if◌then◌else◌, ◌==◌, not, true, false, arith, length-append, append_assoc, replicate,
}
use cpp_wtfsc.Matrix.Result.{ok, ◌>>=◌, is_null, at, to, at-map_middle}
use cpp_wtfsc.Matrix.Scalar.{Scalar}
use cpp_wtfsc.Matrix.Storage.{vector_assign}
use cpp_wtfsc.Matrix.Rows.{Row, IsRow, lookup, entries}
use cpp_wtfsc.Matrix.Rows.Dense.{
  dense, sum_row, sum_row_lem, Absorbs, dense_of_nothing, vector_assign-append_middle,
}
use cpp_wtfsc.Matrix.Rows.Layout.{columns, values, entries_around}
use cpp_wtfsc.Matrix.Rows.Splice.{AllRows-middle, entries_nil}
use cpp_wtfsc.Matrix.Sparse.{SparseMatrix}
use cpp_wtfsc.Matrix.Sparse.Represents.{
  Represents, Holds, at-map-row_of, map_of_nothing, length-map_rows,
}
use cpp_wtfsc.Matrix.Rows.Layout.{at-offsets}
use cpp_wtfsc.Matrix.Sparse.Arithmetic.{sum_entries, multiply_rows, multiply_vector}
use cpp_wtfsc.Matrix.Sparse.Cells.{IsMatrix, value}

module _ {T : Type 0} (scalar : Scalar T) (a : SparseMatrix T) (x : List T) where
  sum_entries_lem :
      (pre mid post : Row T) (sum : T)
      → a.cols ≡ to (columns (pre ++ (mid ++ post)))
      → a.vals ≡ to (values (pre ++ (mid ++ post)))
      → sum_entries scalar a x (length mid) (length pre + 1) sum ≡ sum_row scalar 1 x mid sum
  unfolding sum_entries
  sum_entries_lem pre [] post sum e f = refl
  sum_entries_lem pre ((c, v) ∷ mid) post sum e f =
      let step : length pre + 1 ≡ length (pre ++ (c, v) ∷ []) =
        omega (arith, length-append pre ((c, v) ∷ [])) in
      let back : length pre + 1 - 1 ≡ length pre = omega arith in
      let ih : (s : T)
          → sum_entries scalar a x (length mid) (length (pre ++ (c, v) ∷ []) + 1) s
            ≡ sum_row scalar 1 x mid s =
        λ s.
          sum_entries_lem (pre ++ (c, v) ∷ []) mid post s
            (e ∙ ap (λ l. to (columns l)) (sym (append_assoc pre _ _)))
            (f ∙ ap (λ l. to (values l)) (sym (append_assoc pre _ _))) in
      rw (e, f, back, at-map_middle, at-map_middle, step)
        (λ i. at x (c - 1) >>= λ xc. ih (scalar.plus sum (scalar.times v xc)) i)

  module _ (absorbs : Absorbs scalar) (same : length x ≡ a.n) where
    -- What the loop over one row adds up.
    row_sum :
        (above : List (Row T)) (r : Row T) (below : List (Row T))
        → Represents scalar 1 a (above ++ r ∷ below)
        → sum_entries scalar a x (length r) (length (entries above) + 1) scalar.zero
          ≡ ok (dense scalar (lookup scalar r) x 1 scalar.zero)
    unfolding sum_entries
    row_sum above r below rep = go rep.holds
      where
        spans : IsRow scalar 1 (length x + 1) r
        spans = rw same (AllRows-middle scalar 1 (a.n + 1) above r below rep.each)

        go :
            Holds a.cols a.vals (entries (above ++ r ∷ below))
            → sum_entries scalar a x (length r) (length (entries above) + 1) scalar.zero
              ≡ ok (dense scalar (lookup scalar r) x 1 scalar.zero)
        go (inl (e, f)) =
            sum_entries_lem (entries above) r (entries below) scalar.zero
              (e ∙ ap (λ l. to (columns l)) (entries_around above r below))
              (f ∙ ap (λ l. to (values l)) (entries_around above r below))
            ∙ sum_row_lem scalar absorbs 1 x r scalar.zero spans
        go (inr (e, f, g)) =
            rw (entries_nil above r below g)
              (ap ok (sym (dense_of_nothing scalar absorbs x 1 scalar.zero)))

    ends :
        (above : List (Row T)) (r : Row T) (below : List (Row T))
        → Represents scalar 1 a (above ++ r ∷ below)
        → (at a.rows (length above) ≡ ok (length (entries above) + 1))
          × (at a.rows (length above + 1) ≡ ok (length (entries above) + 1 + length r))
    ends above r below rep =
        let (s, t) = at-offsets 1 above r below in
        let e : 1 + length (entries above) ≡ length (entries above) + 1 = omega arith in
        (
          ap (λ s. at s (length above)) rep.starts ∙ s ∙ ap ok e,
          ap (λ s. at s (length above + 1)) rep.starts ∙ t ∙ ap (λ k. ok (k + length r)) e,
        )

    multiply_rows_lem :
        (above below : List (Row T)) (done : List T)
        → Represents scalar 1 a (above ++ below)
        → length done ≡ length above
        → multiply_rows scalar a x
            (length below)
            (length above)
            (done ++ replicate (length below) scalar.zero)
          ≡ ok (done ++ map (λ r. dense scalar (lookup scalar r) x 1 scalar.zero) below)
    unfolding multiply_rows
    multiply_rows_lem above [] done rep h = refl
    multiply_rows_lem above (r ∷ below) done rep h =
        let (start, stop) = ends above r below rep in
        let span : length (entries above) + 1 + length r - (length (entries above) + 1) ≡ length r =
          omega arith in
        let v = dense scalar (lookup scalar r) x 1 scalar.zero in
        let write : vector_assign (done ++ scalar.zero ∷ replicate (length below) scalar.zero)
              (length above) v
            ≡ ok (done ++ v ∷ replicate (length below) scalar.zero) =
          vector_assign-append_middle done _ v _ (length above) (sym h) in
        let step : length (above ++ r ∷ []) ≡ length above + 1 =
          omega (arith, length-append above (r ∷ [])) in
        let ih : multiply_rows scalar a x (length below) (length (above ++ r ∷ []))
              ((done ++ v ∷ []) ++ replicate (length below) scalar.zero)
            ≡ ok (
                (done ++ v ∷ [])
                ++ map (λ r. dense scalar (lookup scalar r) x 1 scalar.zero) below) =
          multiply_rows_lem (above ++ r ∷ []) below (done ++ v ∷ []) (rw append_assoc rep)
            (omega (arith, length-append above (r ∷ []), length-append done (v ∷ []))) in
        rw (start, stop, span, row_sum above r below rep, write)
          (rw (step, append_assoc, append_assoc) at ih)

    rows_lem :
        (rs : List (Row T))
        → Represents scalar 1 a rs
        → multiply_vector scalar a x
          ≡ ok (map (λ r. dense scalar (lookup scalar r) x 1 scalar.zero) rs)
    unfolding multiply_vector
    rows_lem rs rep =
        let test : not (a.n == length x) ≡ false = ground arith in rw test (go rep.holds)
      where
        go :
            Holds a.cols a.vals (entries rs)
            → (if is_null a.vals
                then ok (replicate a.m scalar.zero)
                else multiply_rows scalar a x a.m 0 (replicate a.m scalar.zero))
              ≡ ok (map (λ r. dense scalar (lookup scalar r) x 1 scalar.zero) rs)
        go (inl (e, f)) =
            let t : is_null a.vals ≡ false = rw f refl in
            rw t (rw rep.height at (multiply_rows_lem [] rs [] rep refl))
        go (inr (e, f, g)) =
            let t : is_null a.vals ≡ true = rw f refl in
            let z =
              map_of_nothing (λ r. dense scalar (lookup scalar r) x 1 scalar.zero) _ rs
                (dense_of_nothing scalar absorbs x 1 scalar.zero) g in
            rw t (ap ok (sym (rw rep.height at z)))

    -- If adding `T()` times any element changes no sum, as it is with integers but not with the infinities
    -- of `double`: the product of a matrix with a vector of its width is defined. It has one value for
    -- each row, the sum over all columns of the value at the cell times the element of the vector.
    pub multiply_vector_lem :
        (v : IsMatrix scalar a)
        → (ys : List T) × (multiply_vector scalar a x ≡ ok ys)
          × (length ys ≡ a.m)
          × ((i : ℕ)
              → 1 ≤ i
              → i ≤ a.m
              → at ys (i - 1) ≡ ok (dense scalar (value scalar v i) x 1 scalar.zero))
    multiply_vector_lem v =
        let sums = λ (r : Row T). dense scalar (lookup scalar r) x 1 scalar.zero in
        (
          map sums v.rs,
          rows_lem v.rs v.spells,
          length-map_rows sums v.rs ∙ v.spells.height,
          λ i h k. at-map-row_of sums v.rs (i - 1) (let g = v.spells.height in omega arith),
        )
