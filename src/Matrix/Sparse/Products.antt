-- ===== src/Matrix/Sparse/Products.antt =====
-- `add`, `subtract` and `multiply` of src/matrix/sparse_matrix.cpp against their textbook meaning.
use cpp_wtfsc.Base.{ℕ, zero, suc, ◌+◌, ◌≤◌, ◌≡◌, refl, ◌==◌, arith, ◌||◌, false, not}
use cpp_wtfsc.Matrix.Result.{ok}
use cpp_wtfsc.Matrix.Scalar.{Scalar}
use cpp_wtfsc.Matrix.Sparse.{SparseMatrix}
use cpp_wtfsc.Matrix.Sparse.Arithmetic.{add_cell, add, subtract_cell, subtract, dot_from, multiply}
use cpp_wtfsc.Matrix.Sparse.Cells.{IsMatrix, HasCells, value, value_lem, cells_lem}

module _ {T : Type 0} (scalar : Scalar T) {a b : SparseMatrix T} (va : IsMatrix scalar a)
    (vb : IsMatrix scalar b) where
  -- Two matrices of one size have a sum, and each of its cells is the sum of the two cells.
  pub add-HasCells :
      a.m ≡ b.m
      → a.n ≡ b.n
      → HasCells scalar a.m a.n
          (λ i j. scalar.plus (value scalar va i j) (value scalar vb i j))
          (add scalar a b)
  unfolding add
  add-HasCells em en =
      let test : (not (a.m == b.m) || not (a.n == b.n)) ≡ false = ground arith in
      rw test (
        cells_lem scalar a.m a.n (add_cell scalar a b) _ va.tall va.wide (λ i j h1 h2 h3 h4.
          rw
            (
              value_lem scalar va i j h1 h2 h3 h4,
              value_lem scalar vb i j h1 (omega arith) h3 (omega arith),
            )
            refl))

  -- Two matrices of one size have a difference, and each of its cells is the difference of the two.
  pub subtract-HasCells :
      a.m ≡ b.m
      → a.n ≡ b.n
      → HasCells scalar a.m a.n
          (λ i j. scalar.minus (value scalar va i j) (value scalar vb i j))
          (subtract scalar a b)
  unfolding subtract
  subtract-HasCells em en =
      let test : (not (a.m == b.m) || not (a.n == b.n)) ≡ false = ground arith in
      rw test (
        cells_lem scalar a.m a.n (subtract_cell scalar a b) _ va.tall va.wide (λ i j h1 h2 h3 h4.
          rw
            (
              value_lem scalar va i j h1 h2 h3 h4,
              value_lem scalar vb i j h1 (omega arith) h3 (omega arith),
            )
            refl))

-- The sum of `f k * g k` over `n` values of `k`, from `k` on, added to `sum` from the left.
pub dot : {T : Type 0} → Scalar T → (ℕ → T) → (ℕ → T) → ℕ → ℕ → T → T
dot scalar f g zero k sum = sum
dot scalar f g (suc n) k sum = dot scalar f g n (k + 1) (scalar.plus sum (scalar.times (f k) (g k)))

module _ {T : Type 0} (scalar : Scalar T) {a b : SparseMatrix T} (va : IsMatrix scalar a)
    (vb : IsMatrix scalar b) where
  dot_from_lem :
      (rounds i j k : ℕ) (sum : T)
      → a.n ≡ b.m
      → 1 ≤ i
      → i ≤ a.m
      → 1 ≤ j
      → j ≤ b.n
      → 1 ≤ k
      → k + rounds ≤ a.n + 1
      → dot_from scalar a b rounds i j k sum
        ≡ ok (dot scalar (λ k. value scalar va i k) (λ k. value scalar vb k j) rounds k sum)
  unfolding dot_from dot
  dot_from_lem zero i j k sum e h1 h2 h3 h4 h5 h6 = refl
  dot_from_lem (suc rounds) i j k sum e h1 h2 h3 h4 h5 h6 =
      rw
        (
          value_lem scalar va i k h1 h2 h5 (omega arith),
          value_lem scalar vb k j h5 (omega arith) h3 h4,
        )
        (dot_from_lem rounds i j (k + 1) _ e h1 h2 h3 h4 (omega arith) (omega arith))

  -- The product of an m by n and an n by p matrix is m by p, and the cell at row i and column j is the
  -- sum over k of the left value at (i, k) times the right value at (k, j).
  pub multiply-HasCells :
      a.n ≡ b.m
      → HasCells scalar a.m b.n
          (λ i j.
            dot scalar (λ k. value scalar va i k) (λ k. value scalar vb k j) a.n 1 scalar.zero)
          (multiply scalar a b)
  unfolding multiply
  multiply-HasCells e =
      let test : not (a.n == b.m) ≡ false = ground arith in
      rw test (
        cells_lem scalar a.m b.n _ _ va.tall vb.wide (λ i j h1 h2 h3 h4.
          dot_from_lem a.n i j 1 scalar.zero e h1 h2 h3 h4 (omega arith) (omega arith)))
