-- ===== src/Matrix/Sparse/Tests.antt =====
-- Concrete matrices of src/matrix/sparse_matrix.cpp over the natural numbers.
use cpp_wtfsc.Base.{
  ℕ, ◌-◌, ◌≤◌, ◌<◌, ◌≡◌, ◌↔◌, ◌⊎◌, inl, refl, List, [], ◌∷◌, if◌then◌else◌, ◌==◌, ◌&&◌, arith,
  length,
}
use cpp_wtfsc.Matrix.Result.{ok, invalid_coordinates, at, ◌>>=◌, null, to}
use cpp_wtfsc.Matrix.Scalar.{naturals}
use cpp_wtfsc.Matrix.Sparse.{SparseMatrix, init, get, insert, remove, set}
use cpp_wtfsc.Matrix.Storage.{
  find_from, locate_from, vector_insert, vector_erase, increment_from, decrement_from,
}
use cpp_wtfsc.Matrix.Sparse.Arithmetic.{multiply, multiply_vector}
use cpp_wtfsc.Matrix.Sparse.Cells.{IsMatrix, HasCells, value}
use cpp_wtfsc.Matrix.Sparse.Products.{dot, multiply-HasCells}
use cpp_wtfsc.Matrix.Sparse.Client.{get-set, refused_coordinates}
use cpp_wtfsc.Matrix.Rows.Dense.{dense, Absorbs}
use cpp_wtfsc.Matrix.Sparse.VectorProduct.{multiply_vector_lem}

-- 0 5
-- 7 3
abbrev full_matrix : SparseMatrix ℕ
full_matrix = record {
  m = 2;
  n = 2;
  vals = to (5 ∷ 7 ∷ 3 ∷ []);
  cols = to (2 ∷ 1 ∷ 2 ∷ []);
  rows = 1 ∷ 2 ∷ 4 ∷ [];
}

abbrev unset_matrix : SparseMatrix ℕ
unset_matrix = record { m = 2; n = 2; vals = null; cols = null; rows = 1 ∷ 1 ∷ 1 ∷ [] }

abbrev wide_matrix : SparseMatrix ℕ
wide_matrix = record { m = 2; n = 3; vals = null; cols = null; rows = 1 ∷ 1 ∷ 1 ∷ [] }

abbrev full_matrix-IsMatrix : IsMatrix naturals full_matrix
full_matrix-IsMatrix = record {
  rs = ((2, 5) ∷ []) ∷ ((1, 7) ∷ (2, 3) ∷ []) ∷ [];
  spells = record {
    height = refl;
    starts = refl;
    holds = inl (refl, refl);
    each = (
      (omega arith, omega arith, omega arith, tt),
      ((omega arith, omega arith, omega arith, (omega arith, omega arith, omega arith, tt)), tt),
    );
  };
  tall = omega arith;
  wide = omega arith;
}

test-set :
    set naturals full_matrix 9 1 1
    ≡ ok (record full_matrix {
      vals = to (9 ∷ 5 ∷ 7 ∷ 3 ∷ []);
      cols = to (1 ∷ 2 ∷ 1 ∷ 2 ∷ []);
      rows = 1 ∷ 3 ∷ 5 ∷ [];
    })
unfolding set at locate_from insert vector_insert increment_from
test-set = refl

test-set_zero :
    set naturals full_matrix 0 2 1
    ≡ ok (record full_matrix {
      vals = to (5 ∷ 3 ∷ []);
      cols = to (2 ∷ 2 ∷ []);
      rows = 1 ∷ 2 ∷ 3 ∷ [];
    })
unfolding set at locate_from remove vector_erase decrement_from
test-set_zero = refl

unset_made : init 2 2 ≡ ok unset_matrix
unfolding init
unset_made = refl

wide_made : init 2 3 ≡ ok wide_matrix
unfolding init
wide_made = refl

test-multiply : (multiply naturals full_matrix full_matrix >>= λ c. get naturals c 2 2) ≡ ok 44
unfolding multiply get init set at find_from locate_from insert increment_from vector_insert
test-multiply = refl

get-set_example :
    (a' : SparseMatrix ℕ) × (set naturals full_matrix 9 1 1 ≡ ok a')
    × IsMatrix naturals a'
    × (a'.m ≡ 2)
    × (a'.n ≡ 2)
    × ((i j : ℕ)
        → 1 ≤ i
        → i ≤ 2
        → 1 ≤ j
        → j ≤ 2
        → get naturals a' i j ≡ (if 1 == i && 1 == j then ok 9 else get naturals full_matrix i j))
get-set_example =
    get-set naturals full_matrix 9 1 1 full_matrix-IsMatrix (omega arith) (omega arith)
      (omega arith) (omega arith)

refused_coordinates_example :
    ((get naturals full_matrix 3 1 ≡ invalid_coordinates)
      ↔ ((3 < 1) ⊎ ((1 < 1) ⊎ ((2 < 3) ⊎ (2 < 1)))))
    × ((set naturals full_matrix 9 3 1 ≡ invalid_coordinates)
        ↔ ((3 < 1) ⊎ ((1 < 1) ⊎ ((2 < 3) ⊎ (2 < 1)))))
refused_coordinates_example = refused_coordinates naturals full_matrix full_matrix-IsMatrix 9 3 1

multiply-HasCells_example :
    HasCells naturals 2 2
      (λ i j.
        dot naturals
          (λ k. value naturals full_matrix-IsMatrix i k)
          (λ k. value naturals full_matrix-IsMatrix k j)
          2
          1
          0)
      (multiply naturals full_matrix full_matrix)
multiply-HasCells_example =
    multiply-HasCells naturals full_matrix-IsMatrix full_matrix-IsMatrix refl

naturals-Absorbs : Absorbs naturals
naturals-Absorbs s y = omega arith

multiply_vector_lem_example :
    (ys : List ℕ) × (multiply_vector naturals full_matrix (2 ∷ 10 ∷ []) ≡ ok ys)
    × (length ys ≡ 2)
    × ((i : ℕ)
        → 1 ≤ i
        → i ≤ 2
        → at ys (i - 1)
          ≡ ok (dense naturals (value naturals full_matrix-IsMatrix i) (2 ∷ 10 ∷ []) 1 0))
multiply_vector_lem_example =
    multiply_vector_lem naturals full_matrix (2 ∷ 10 ∷ []) naturals-Absorbs refl
      full_matrix-IsMatrix
