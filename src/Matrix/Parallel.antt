-- ===== src/Matrix/Parallel.antt =====
-- The class of src/parallel-sparse-matrix/sparse_matrix.h. Its arrays are those of
-- src/matrix/sparse_matrix.cpp, but rows, columns and offsets count from 0, and no method tests its
-- coordinates: what an index out of range reads is undefined. A coordinate is a natural number, and
-- the column that `set` starts with, -1, is `none`. Both exceptions are `invalid_dimensions`.
pub mod Access
pub mod Cells
pub mod Products
mod Tests
use cpp_wtfsc.Base.{
  ℕ, zero, suc, ◌+◌, ◌-◌, not, ◌||◌, List, [], ◌∷◌, none, ◌==◌, ltb, length, replicate,
  if◌then◌else◌,
}
use cpp_wtfsc.Matrix.Result.{
  Result, ok, invalid_dimensions, ◌>>=◌, null, wild, to, deref, is_null, at,
}
use cpp_wtfsc.Matrix.Scalar.{Scalar}
use cpp_wtfsc.Matrix.Storage.{
  vector_insert, vector_erase, vector_assign, increment_from, decrement_from, find_from,
  locate_from,
}
use cpp_wtfsc.Matrix.Sparse.{SparseMatrix, stopped_at, overwrite}

unfoldable pub init : {T : Type 0} → ℕ → ℕ → Result (SparseMatrix T)
init rows columns =
    if ltb rows 1 || ltb columns 1
    then invalid_dimensions
    else ok
        (record { m = rows; n = columns; vals = null; cols = null; rows = replicate (rows + 1) 0 })

-- The destructor: what is deleted must be owned, and is dangling afterwards.
unfoldable pub destruct : {T : Type 0} → SparseMatrix T → Result (SparseMatrix T)
destruct this =
    let freed = (do
      _ ← deref this.vals
      _ ← deref this.cols
      ok (record this { vals = wild; cols = wild; rows = [] })) in
    if is_null this.vals then ok (record this { rows = [] }) else freed

module _ {T : Type 0} (scalar : Scalar T) where
  unfoldable pub get : SparseMatrix T → ℕ → ℕ → Result T
  get a row col = do
    start ← at a.rows row
    stop ← at a.rows (row + 1)
    find_from scalar a.cols a.vals (stop - start) start col

  unfoldable pub insert : SparseMatrix T → ℕ → ℕ → ℕ → T → Result (SparseMatrix T)
  insert a index row col val =
      let grow = (do
        vs ← deref a.vals
        vs' ← vector_insert vs index val
        cs ← deref a.cols
        cs' ← vector_insert cs index col
        ok (vs', cs')) in
      do
        (vs, cs) ← (if is_null a.vals then ok (val ∷ [], col ∷ []) else grow)
        rows ← increment_from (a.m - row) (row + 1) a.rows
        ok (record a { vals = to vs; cols = to cs; rows = rows })

  unfoldable pub remove : SparseMatrix T → ℕ → ℕ → Result (SparseMatrix T)
  remove a index row = do
    vs ← deref a.vals
    vs' ← vector_erase vs index
    cs ← deref a.cols
    cs' ← vector_erase cs index
    rows ← decrement_from (a.m - row) (row + 1) a.rows
    ok (record a { vals = to vs'; cols = to cs'; rows = rows })

  unfoldable pub set : SparseMatrix T → ℕ → ℕ → T → Result (SparseMatrix T)
  set a row col val = do
    start ← at a.rows row
    stop ← at a.rows (row + 1)
    (pos, cur_col) ← locate_from a.cols (stop - start) start none col
    if not (stopped_at cur_col col)
        then (if not (scalar.beq val scalar.zero) then insert a pos row col val else ok a)
        else (if scalar.beq val scalar.zero then remove a pos row else overwrite scalar a pos val)

  -- The loop over the entries of one row, in `multiply` and in `multiplyRow`.
  unfoldable pub sum_entries : SparseMatrix T → List T → ℕ → ℕ → T → Result T
  sum_entries a x zero j sum = ok sum
  sum_entries a x (suc rounds) j sum = do
    cs ← deref a.cols
    col_idx ← at cs j
    vs ← deref a.vals
    v ← at vs j
    xc ← at x col_idx
    sum_entries a x rounds (j + 1) (scalar.plus sum (scalar.times v xc))

  -- The outer loop of `multiply`, from row `i` on.
  unfoldable pub multiply_rows : SparseMatrix T → List T → ℕ → ℕ → List T → Result (List T)
  unfolding sum_entries
  multiply_rows a x zero i result = ok result
  multiply_rows a x (suc rounds) i result = do
    start ← at a.rows i
    stop ← at a.rows (i + 1)
    sum ← sum_entries a x (stop - start) start scalar.zero
    result' ← vector_assign result i sum
    multiply_rows a x rounds (i + 1) result'

  unfoldable pub multiply : SparseMatrix T → List T → Result (List T)
  unfolding multiply_rows
  multiply a x =
      if not (a.n == length x)
      then invalid_dimensions
      else (let result = replicate a.m scalar.zero in
          if is_null a.vals then ok result else multiply_rows a x a.m 0 result)

  unfoldable pub multiply_row : SparseMatrix T → ℕ → List T → Result T
  unfolding sum_entries
  multiply_row a i x =
      if not (a.n == length x)
      then invalid_dimensions
      else if is_null a.vals
      then ok scalar.zero
      else (do
        start ← at a.rows i
        stop ← at a.rows (i + 1)
        sum_entries a x (stop - start) start scalar.zero)
