-- ===== src/Matrix/Sparse/Arithmetic.antt =====
-- The operations on whole matrices in src/matrix/sparse_matrix.cpp. The operators `*`, `+` and `-`
-- call the methods of the same meaning.
use cpp_wtfsc.Base.{ℕ, zero, suc, ◌+◌, ◌-◌, not, ◌||◌, List, ◌==◌, length, replicate, if◌then◌else◌}
use cpp_wtfsc.Matrix.Result.{Result, ok, invalid_dimensions, ◌>>=◌, deref, is_null, at}
use cpp_wtfsc.Matrix.Scalar.{Scalar}
use cpp_wtfsc.Matrix.Storage.{vector_assign}
use cpp_wtfsc.Matrix.Sparse
use cpp_wtfsc.Matrix.Sparse.{SparseMatrix, get, set}

module _ {T : Type 0} (scalar : Scalar T) where
  -- The inner loop of `multiply` over the entries of one row. `j` counts from 1.
  unfoldable pub sum_entries : SparseMatrix T → List T → ℕ → ℕ → T → Result T
  sum_entries a x zero j sum = ok sum
  sum_entries a x (suc rounds) j sum = do
    vs ← deref a.vals
    v ← at vs (j - 1)
    cs ← deref a.cols
    c ← at cs (j - 1)
    xc ← at x (c - 1)
    sum_entries a x rounds (j + 1) (scalar.plus sum (scalar.times v xc))

  -- The outer loop, from row `i` on; rows count from 0 here.
  unfoldable pub multiply_rows : SparseMatrix T → List T → ℕ → ℕ → List T → Result (List T)
  unfolding sum_entries
  multiply_rows a x zero i result = ok result
  multiply_rows a x (suc rounds) i result = do
    start ← at a.rows i
    stop ← at a.rows (i + 1)
    sum ← sum_entries a x (stop - start) start scalar.zero
    result' ← vector_assign result i sum
    multiply_rows a x rounds (i + 1) result'

  unfoldable pub multiply_vector : SparseMatrix T → List T → Result (List T)
  unfolding multiply_rows
  multiply_vector a x =
      if not (a.n == length x)
      then invalid_dimensions
      else (let result = replicate a.m scalar.zero in
          if is_null a.vals then ok result else multiply_rows a x a.m 0 result)

  -- The loops of `multiply`, `add` and `subtract` over all cells of the result: columns, and rows.
  unfoldable pub fill_columns :
      (ℕ → ℕ → Result T) → ℕ → ℕ → ℕ → SparseMatrix T → Result (SparseMatrix T)
  fill_columns cell zero i j result = ok result
  fill_columns cell (suc rounds) i j result = do
    v ← cell i j
    result' ← set scalar result v i j
    fill_columns cell rounds i (j + 1) result'

  unfoldable pub fill_rows :
      (ℕ → ℕ → Result T) → ℕ → ℕ → ℕ → SparseMatrix T → Result (SparseMatrix T)
  unfolding fill_columns
  fill_rows cell n zero i result = ok result
  fill_rows cell n (suc rounds) i result = do
    result' ← fill_columns cell n i 1 result
    fill_rows cell n rounds (i + 1) result'

  unfoldable pub add_cell : SparseMatrix T → SparseMatrix T → ℕ → ℕ → Result T
  add_cell a b i j = do x ← get scalar a i j; y ← get scalar b i j; ok (scalar.plus x y)

  unfoldable pub add : SparseMatrix T → SparseMatrix T → Result (SparseMatrix T)
  unfolding add_cell fill_rows
  add a b =
      if not (a.m == b.m) || not (a.n == b.n)
      then invalid_dimensions
      else (Sparse.init a.m a.n >>= λ result. fill_rows (add_cell a b) a.n a.m 1 result)

  unfoldable pub subtract_cell : SparseMatrix T → SparseMatrix T → ℕ → ℕ → Result T
  subtract_cell a b i j = do x ← get scalar a i j; y ← get scalar b i j; ok (scalar.minus x y)

  unfoldable pub subtract : SparseMatrix T → SparseMatrix T → Result (SparseMatrix T)
  unfolding subtract_cell fill_rows
  subtract a b =
      if not (a.m == b.m) || not (a.n == b.n)
      then invalid_dimensions
      else (Sparse.init a.m a.n >>= λ result. fill_rows (subtract_cell a b) a.n a.m 1 result)

  -- The loop over `k` that adds up one cell of a product.
  unfoldable pub dot_from : SparseMatrix T → SparseMatrix T → ℕ → ℕ → ℕ → ℕ → T → Result T
  dot_from a b zero i j k sum = ok sum
  dot_from a b (suc rounds) i j k sum = do
    x ← get scalar a i k
    y ← get scalar b k j
    dot_from a b rounds i j (k + 1) (scalar.plus sum (scalar.times x y))

  unfoldable pub multiply : SparseMatrix T → SparseMatrix T → Result (SparseMatrix T)
  unfolding dot_from fill_rows
  multiply a b =
      if not (a.n == b.m)
      then invalid_dimensions
      else (Sparse.init a.m b.n >>= λ result.
          fill_rows (λ i j. dot_from a b a.n i j 1 scalar.zero) b.n a.m 1 result)
