-- ===== src/Matrix/Parallel/Products.antt =====
-- The products with a vector of src/parallel-sparse-matrix/sparse_matrix.h against the dense sum.
use cpp_wtfsc.Base.{
  ℕ, ◌+◌, ◌-◌, ◌<◌, ◌≡◌, ◌≢◌, inl, inr, refl, ap, ◌∙◌, sym, List, [], ◌∷◌, ◌++◌, length, map,
  if◌then◌else◌, ◌==◌, not, true, false, arith, length-append, append_assoc, replicate,
}
use cpp_wtfsc.Matrix.Result.{ok, ◌>>=◌, invalid_dimensions, is_null, at, to, at-map_middle}
use cpp_wtfsc.Matrix.Scalar.{Scalar}
use cpp_wtfsc.Matrix.Storage.{vector_assign}
use cpp_wtfsc.Matrix.Rows.{Row, IsRow, lookup, entries}
use cpp_wtfsc.Matrix.Rows.Dense.{
  dense, sum_row, sum_row_lem, Absorbs, dense_of_nothing, vector_assign-append_middle,
}
use cpp_wtfsc.Matrix.Rows.Layout.{columns, values, entries_around, around}
use cpp_wtfsc.Matrix.Rows.Splice.{AllRows-middle, entries_nil}
use cpp_wtfsc.Matrix.Sparse.{SparseMatrix}
use cpp_wtfsc.Matrix.Sparse.Represents.{
  Represents, Holds, row_of, at-map-row_of, map_of_nothing, length-map_rows,
}
use cpp_wtfsc.Matrix.Sparse.Values.{row_of_middle}
use cpp_wtfsc.Matrix.Parallel.Access.{ends}
use cpp_wtfsc.Matrix.Parallel.{sum_entries, multiply_rows, multiply, multiply_row}
use cpp_wtfsc.Matrix.Parallel.Cells.{IsTable, cell}

module _ {T : Type 0} (scalar : Scalar T) (a : SparseMatrix T) (x : List T) where
  sum_entries_lem :
      (pre mid post : Row T) (sum : T)
      → a.cols ≡ to (columns (pre ++ (mid ++ post)))
      → a.vals ≡ to (values (pre ++ (mid ++ post)))
      → sum_entries scalar a x (length mid) (length pre) sum ≡ sum_row scalar 0 x mid sum
  unfolding sum_entries
  sum_entries_lem pre [] post sum e f = refl
  sum_entries_lem pre ((c, v) ∷ mid) post sum e f =
      let step : length pre + 1 ≡ length (pre ++ (c, v) ∷ []) =
        omega (arith, length-append pre ((c, v) ∷ [])) in
      let back : c - 0 ≡ c = omega arith in
      let ih : (s : T)
          → sum_entries scalar a x (length mid) (length (pre ++ (c, v) ∷ [])) s
            ≡ sum_row scalar 0 x mid s =
        λ s.
          sum_entries_lem (pre ++ (c, v) ∷ []) mid post s
            (e ∙ ap (λ l. to (columns l)) (sym (append_assoc pre _ _)))
            (f ∙ ap (λ l. to (values l)) (sym (append_assoc pre _ _))) in
      rw (e, f, at-map_middle, at-map_middle, step, back)
        (λ i. at x c >>= λ xc. ih (scalar.plus sum (scalar.times v xc)) i)

  module _ (absorbs : Absorbs scalar) (same : length x ≡ a.n) where
    -- What the loop over one row adds up.
    row_sum :
        (above : List (Row T)) (r : Row T) (below : List (Row T))
        → Represents scalar 0 a (above ++ r ∷ below)
        → sum_entries scalar a x (length r) (length (entries above)) scalar.zero
          ≡ ok (dense scalar (lookup scalar r) x 0 scalar.zero)
    unfolding sum_entries
    row_sum above r below rep = go rep.holds
      where
        spans : IsRow scalar 0 (length x + 0) r
        spans = rw same (AllRows-middle scalar 0 (a.n + 0) above r below rep.each)

        go :
            Holds a.cols a.vals (entries (above ++ r ∷ below))
            → sum_entries scalar a x (length r) (length (entries above)) scalar.zero
              ≡ ok (dense scalar (lookup scalar r) x 0 scalar.zero)
        go (inl (e, f)) =
            sum_entries_lem (entries above) r (entries below) scalar.zero
              (e ∙ ap (λ l. to (columns l)) (entries_around above r below))
              (f ∙ ap (λ l. to (values l)) (entries_around above r below))
            ∙ sum_row_lem scalar absorbs 0 x r scalar.zero spans
        go (inr (e, f, g)) =
            rw (entries_nil above r below g)
              (ap ok (sym (dense_of_nothing scalar absorbs x 0 scalar.zero)))

    multiply_rows_lem :
        (above below : List (Row T)) (done : List T)
        → Represents scalar 0 a (above ++ below)
        → length done ≡ length above
        → multiply_rows scalar a x
            (length below)
            (length above)
            (done ++ replicate (length below) scalar.zero)
          ≡ ok (done ++ map (λ r. dense scalar (lookup scalar r) x 0 scalar.zero) below)
    unfolding multiply_rows
    multiply_rows_lem above [] done rep h = refl
    multiply_rows_lem above (r ∷ below) done rep h =
        let (start, stop) = ends scalar a above r below rep in
        let span : length (entries above) + length r - length (entries above) ≡ length r =
          omega arith in
        let v = dense scalar (lookup scalar r) x 0 scalar.zero in
        let write : vector_assign (done ++ scalar.zero ∷ replicate (length below) scalar.zero)
              (length above) v
            ≡ ok (done ++ v ∷ replicate (length below) scalar.zero) =
          vector_assign-append_middle done _ v _ (length above) (sym h) in
        let step : length (above ++ r ∷ []) ≡ length above + 1 =
          omega (arith, length-append above (r ∷ [])) in
        let ih : multiply_rows scalar a x (length below) (length (above ++ r ∷ []))
              ((done ++ v ∷ []) ++ replicate (length below) scalar.zero)
            ≡ ok (
                (done ++ v ∷ [])
                ++ map (λ r. dense scalar (lookup scalar r) x 0 scalar.zero) below) =
          multiply_rows_lem (above ++ r ∷ []) below (done ++ v ∷ []) (rw append_assoc rep)
            (omega (arith, length-append above (r ∷ []), length-append done (v ∷ []))) in
        rw (start, stop, span, row_sum above r below rep, write)
          (rw (step, append_assoc, append_assoc) at ih)

    rows_lem :
        (rs : List (Row T))
        → Represents scalar 0 a rs
        → multiply scalar a x ≡ ok (map (λ r. dense scalar (lookup scalar r) x 0 scalar.zero) rs)
    unfolding multiply
    rows_lem rs rep =
        let test : not (a.n == length x) ≡ false = ground arith in rw test (go rep.holds)
      where
        go :
            Holds a.cols a.vals (entries rs)
            → (if is_null a.vals
                then ok (replicate a.m scalar.zero)
                else multiply_rows scalar a x a.m 0 (replicate a.m scalar.zero))
              ≡ ok (map (λ r. dense scalar (lookup scalar r) x 0 scalar.zero) rs)
        go (inl (e, f)) =
            let t : is_null a.vals ≡ false = rw f refl in
            rw t (rw rep.height at (multiply_rows_lem [] rs [] rep refl))
        go (inr (e, f, g)) =
            let t : is_null a.vals ≡ true = rw f refl in
            let z =
              map_of_nothing (λ r. dense scalar (lookup scalar r) x 0 scalar.zero) _ rs
                (dense_of_nothing scalar absorbs x 0 scalar.zero) g in
            rw t (ap ok (sym (rw rep.height at z)))

    row_lem :
        (v : IsTable scalar a) (i : ℕ)
        → i < a.m
        → multiply_row scalar a i x ≡ ok (dense scalar (cell scalar v i) x 0 scalar.zero)
    unfolding multiply_row
    row_lem v i h =
        let test : not (a.n == length x) ≡ false = ground arith in
        let s = around v.rs i (let k = v.spells.height in omega arith) in
        rw test
          (go s.above s.row s.below (rw s.whole at v.spells) s.whole (sym s.count) v.spells.holds)
      where
        go :
            (above : List (Row T)) (r : Row T) (below : List (Row T))
            → Represents scalar 0 a (above ++ r ∷ below)
            → v.rs ≡ above ++ r ∷ below
            → i ≡ length above
            → Holds a.cols a.vals (entries v.rs)
            → (if is_null a.vals then ok scalar.zero else (do
              start ← at a.rows i
              stop ← at a.rows (i + 1)
              sum_entries scalar a x (stop - start) start scalar.zero))
              ≡ ok (dense scalar (lookup scalar (row_of v.rs i)) x 0 scalar.zero)
        go above r below rep whole e (inl (_, f)) =
            let (start, stop) = ends scalar a above r below rep in
            let span : length (entries above) + length r - length (entries above) ≡ length r =
              omega arith in
            let t : is_null a.vals ≡ false = rw f refl in
            rw (t, whole, e, row_of_middle, start, stop, span) (row_sum above r below rep)
        go above r below rep whole e (inr (_, f, g)) =
            let t : is_null a.vals ≡ true = rw f refl in
            rw (t, whole, e, row_of_middle, entries_nil above r below (rw whole at g))
              (ap ok (sym (dense_of_nothing scalar absorbs x 0 scalar.zero)))

    -- If adding `T()` times any element changes no sum, as it is with integers but not with the infinities
    -- of `double`: both products of a matrix with a vector of its width are defined. `multiply` returns one value for
    -- each row, `multiplyRow` returns that value, and it is the sum over all columns of the value at the
    -- cell times the element of the vector.
    pub multiply_lem :
        (v : IsTable scalar a)
        → (ys : List T) × (multiply scalar a x ≡ ok ys)
          × (length ys ≡ a.m)
          × ((i : ℕ)
              → i < a.m
              → (multiply_row scalar a i x ≡ at ys i)
                × (at ys i ≡ ok (dense scalar (cell scalar v i) x 0 scalar.zero)))
    multiply_lem v =
        let sums = λ (r : Row T). dense scalar (lookup scalar r) x 0 scalar.zero in
        let read : (i : ℕ) → i < a.m → at (map sums v.rs) i ≡ ok (sums (row_of v.rs i)) =
          λ i h. at-map-row_of sums v.rs i (let k = v.spells.height in omega arith) in
        (
          map sums v.rs,
          rows_lem v.rs v.spells,
          length-map_rows sums v.rs ∙ v.spells.height,
          λ i h. (row_lem v i h ∙ sym (read i h), read i h),
        )

  -- Neither product is defined for a vector of another length: both throw.
  pub multiply_refuses :
      (i : ℕ)
      → length x ≢ a.n
      → (multiply scalar a x ≡ invalid_dimensions)
        × (multiply_row scalar a i x ≡ invalid_dimensions)
  unfolding multiply multiply_row
  multiply_refuses i h = let t : not (a.n == length x) ≡ true = ground arith in rw t (refl, refl)
