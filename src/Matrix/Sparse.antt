-- ===== src/Matrix/Sparse.antt =====
-- The class of src/matrix/sparse_matrix.cpp. Rows and columns count from 1, positions in the arrays
-- from 0. A dimension or a coordinate is a natural number: a negative `int` is refused by the same
-- test as 0. Offsets are below 2 ^ 31 as long as the entries fit in memory, and do not wrap.
pub mod Represents
pub mod Edit
pub mod Access
pub mod Arithmetic
pub mod Values
pub mod Products
pub mod VectorProduct
pub mod Cells
pub mod Client
pub mod Lifetime
mod Tests
use cpp_wtfsc.Base.{
  ℕ, zero, suc, ◌+◌, ◌-◌, Bool, true, false, not, ◌&&◌, ◌||◌, List, [], ◌∷◌, ◌++◌, Option, none,
  some, ◌==◌, ltb, leb, length, replicate, set as set_elem, if◌then◌else◌,
}
use cpp_wtfsc.Matrix.Result.{
  Result, ok, invalid_dimensions, invalid_coordinates, undefined, ◌>>=◌, Pointer, null, wild, to,
  deref, is_null, at,
}
use cpp_wtfsc.Matrix.Scalar.{Scalar}
use cpp_wtfsc.Matrix.Storage.{
  vector_insert, vector_erase, vector_assign, increment_from, decrement_from, find_from,
  locate_from,
}

pub record SparseMatrix (T : Type 0) : Type 0 where
  pub m : ℕ
  pub n : ℕ
  pub vals : Pointer (List T)
  pub cols : Pointer (List ℕ)
  pub rows : List ℕ

-- `construct`
unfoldable pub init : {T : Type 0} → ℕ → ℕ → Result (SparseMatrix T)
init rows columns =
    if ltb rows 1 || ltb columns 1
    then invalid_dimensions
    else ok
        (record { m = rows; n = columns; vals = null; cols = null; rows = replicate (rows + 1) 1 })

unfoldable pub validate_coordinates : {T : Type 0} → SparseMatrix T → ℕ → ℕ → Result (Unit {0})
validate_coordinates a row col =
    if ltb row 1 || (ltb col 1 || (ltb a.m row || ltb a.n col)) then invalid_coordinates else ok tt

-- Whether the last column that the loop of `set` read is the one looked for.
abbrev pub stopped_at : Option ℕ → ℕ → Bool
stopped_at none col = false
stopped_at (some c) col = c == col

module _ {T : Type 0} (scalar : Scalar T) where
  unfoldable pub get : SparseMatrix T → ℕ → ℕ → Result T
  unfolding validate_coordinates
  get a row col = do
    _ ← validate_coordinates a row col
    start ← at a.rows (row - 1)
    stop ← at a.rows row
    find_from scalar a.cols a.vals (stop - 1 - (start - 1)) (start - 1) col

  -- `insert`: the two arrays are made on the first use.
  unfoldable pub insert : SparseMatrix T → ℕ → ℕ → ℕ → T → Result (SparseMatrix T)
  insert a index row col val =
      let grow = (do
        vs ← deref a.vals
        vs' ← vector_insert vs index val
        cs ← deref a.cols
        cs' ← vector_insert cs index col
        ok (vs', cs')) in
      do
        (vs, cs) ← (if is_null a.vals then ok (val ∷ [], col ∷ []) else grow)
        rows ← increment_from (a.m + 1 - row) row a.rows
        ok (record a { vals = to vs; cols = to cs; rows = rows })

  unfoldable pub remove : SparseMatrix T → ℕ → ℕ → Result (SparseMatrix T)
  remove a index row = do
    vs ← deref a.vals
    vs' ← vector_erase vs index
    cs ← deref a.cols
    cs' ← vector_erase cs index
    rows ← decrement_from (a.m + 1 - row) row a.rows
    ok (record a { vals = to vs'; cols = to cs'; rows = rows })

  -- `(*vals)[pos] = val`
  unfoldable pub overwrite : SparseMatrix T → ℕ → T → Result (SparseMatrix T)
  overwrite a pos val = do
    vs ← deref a.vals
    vs' ← vector_assign vs pos val
    ok (record a { vals = to vs' })

  unfoldable pub set : SparseMatrix T → T → ℕ → ℕ → Result (SparseMatrix T)
  unfolding validate_coordinates
  set a val row col = do
    _ ← validate_coordinates a row col
    start ← at a.rows (row - 1)
    stop ← at a.rows row
    (pos, curr_col) ← locate_from a.cols (stop - 1 - (start - 1)) (start - 1) (some 0) col
    if not (stopped_at curr_col col)
        then (if not (scalar.beq val scalar.zero) then insert a pos row col val else ok a)
        else (if scalar.beq val scalar.zero then remove a pos row else overwrite a pos val)
