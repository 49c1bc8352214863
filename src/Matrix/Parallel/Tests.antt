-- ===== src/Matrix/Parallel/Tests.antt =====
-- Concrete matrices of src/parallel-sparse-matrix/sparse_matrix.h over the natural numbers.
use cpp_wtfsc.Base.{ℕ, ◌<◌, ◌≡◌, inl, refl, List, [], ◌∷◌, length, arith}
use cpp_wtfsc.Matrix.Result.{ok, undefined, at, null, to}
use cpp_wtfsc.Matrix.Scalar.{naturals}
use cpp_wtfsc.Matrix.Storage.{locate_from, vector_erase, decrement_from, vector_assign}
use cpp_wtfsc.Matrix.Rows.Dense.{dense, Absorbs}
use cpp_wtfsc.Matrix.Sparse.{SparseMatrix}
use cpp_wtfsc.Matrix.Parallel.{get, set, remove, multiply, multiply_row, sum_entries, multiply_rows}
use cpp_wtfsc.Matrix.Parallel.Cells.{IsTable, cell}
use cpp_wtfsc.Matrix.Parallel.Products.{multiply_lem}

-- 0 5
-- 7 3
abbrev table : SparseMatrix ℕ
table = record {
  m = 2;
  n = 2;
  vals = to (5 ∷ 7 ∷ 3 ∷ []);
  cols = to (1 ∷ 0 ∷ 1 ∷ []);
  rows = 0 ∷ 1 ∷ 3 ∷ [];
}

abbrev table-IsTable : IsTable naturals table
table-IsTable = record {
  rs = ((1, 5) ∷ []) ∷ ((0, 7) ∷ (1, 3) ∷ []) ∷ [];
  spells = record {
    height = refl;
    starts = refl;
    holds = inl (refl, refl);
    each = (
      (omega arith, omega arith, omega arith, tt),
      ((omega arith, omega arith, omega arith, (omega arith, omega arith, omega arith, tt)), tt),
    );
  };
}

naturals-Absorbs : Absorbs naturals
naturals-Absorbs s y = omega arith

test_products : multiply naturals table (2 ∷ 10 ∷ []) ≡ ok (50 ∷ 44 ∷ [])
unfolding multiply multiply_rows sum_entries vector_assign at
test_products = refl

test_one_row : multiply_row naturals table 1 (2 ∷ 10 ∷ []) ≡ ok 44
unfolding multiply_row sum_entries at
test_one_row = refl

-- No entry: the row is not read, and may be out of range.
test_row_of_nothing :
    multiply_row naturals (record table { vals = null; cols = null }) 9 (2 ∷ 10 ∷ []) ≡ ok 0
unfolding multiply_row
test_row_of_nothing = refl

test_removed :
    set naturals table 0 1 0
    ≡ ok (record table { vals = to (7 ∷ 3 ∷ []); cols = to (0 ∷ 1 ∷ []); rows = 0 ∷ 0 ∷ 2 ∷ [] })
unfolding set locate_from remove vector_erase decrement_from at
test_removed = refl

test_out_of_range : get naturals table 2 0 ≡ undefined
unfolding get at
test_out_of_range = refl

multiply_lem_example :
    (ys : List ℕ) × (multiply naturals table (2 ∷ 10 ∷ []) ≡ ok ys)
    × (length ys ≡ 2)
    × ((i : ℕ)
        → i < 2
        → (multiply_row naturals table i (2 ∷ 10 ∷ []) ≡ at ys i)
          × (at ys i ≡ ok (dense naturals (cell naturals table-IsTable i) (2 ∷ 10 ∷ []) 0 0)))
multiply_lem_example = multiply_lem naturals table (2 ∷ 10 ∷ []) naturals-Absorbs refl table-IsTable
