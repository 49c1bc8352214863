-- ===== src/Matrix/Sparse/Values.antt =====
-- What a client sees of a matrix of src/matrix/sparse_matrix.cpp: the value at each cell.
use cpp_wtfsc.Base.{
  ℕ, zero, suc, ◌+◌, ◌-◌, ◌≤◌, ◌≡◌, ◌≢◌, refl, ap, ◌∙◌, List, [], ◌∷◌, ◌++◌, length, if◌then◌else◌,
  ◌==◌, ◌&&◌, arith,
}
use native.Mathlib.Decide.{ℕ_discrete}
use cpp_wtfsc.Matrix.Result.{ok}
use cpp_wtfsc.Matrix.Scalar.{Scalar}
use cpp_wtfsc.Matrix.Rows.{Row, put}
use cpp_wtfsc.Matrix.Rows.Put.{lookup-put}
use cpp_wtfsc.Matrix.Rows.Layout.{around}
use cpp_wtfsc.Matrix.Rows.Splice.{AllRows-middle}
use cpp_wtfsc.Matrix.Sparse.{SparseMatrix, get, set}
use cpp_wtfsc.Matrix.Sparse.Represents.{Represents, row_of, value_at}
use cpp_wtfsc.Matrix.Sparse.Access.{get_row, set_row}

module _ {T : Type 0} where
  pub row_of_middle :
      (above : List (Row T)) (r : Row T) (below : List (Row T))
      → row_of (above ++ r ∷ below) (length above) ≡ r
  row_of_middle [] r below = refl
  row_of_middle (x ∷ above) r below = row_of_middle above r below

  pub row_of_replace :
      (above : List (Row T)) (r r' : Row T) (below : List (Row T)) (k : ℕ)
      → k ≢ length above
      → row_of (above ++ r' ∷ below) k ≡ row_of (above ++ r ∷ below) k
  row_of_replace [] r r' below zero ne = absurd (ne refl)
  row_of_replace [] r r' below (suc k) ne = refl
  row_of_replace (x ∷ above) r r' below zero ne = refl
  row_of_replace (x ∷ above) r r' below (suc k) ne =
      row_of_replace above r r' below k (λ e. ne (ap suc e))

module _ {T : Type 0} (scalar : Scalar T) where
  -- `get` is defined on every cell, and returns the value that the rows hold there.
  pub get_lem :
      (a : SparseMatrix T) (rs : List (Row T)) (row col : ℕ)
      → Represents scalar 1 a rs
      → 1 ≤ row
      → row ≤ a.m
      → 1 ≤ col
      → col ≤ a.n
      → get scalar a row col ≡ ok (value_at scalar rs row col)
  get_lem a rs row col rep h1 h2 h3 h4 =
      let s = around rs (row - 1) (let h = rep.height in omega arith) in
      get_split s.above s.row s.below (rw s.whole at rep) s.whole (let c = s.count in omega arith)
    where
      get_split :
          (above : List (Row T)) (r : Row T) (below : List (Row T))
          → Represents scalar 1 a (above ++ r ∷ below)
          → rs ≡ above ++ r ∷ below
          → row ≡ length above + 1
          → get scalar a row col ≡ ok (value_at scalar rs row col)
      get_split above r below rep' whole e =
          let back : length above + 1 - 1 ≡ length above = omega arith in
          rw (e, whole, back, row_of_middle) (get_row scalar a above r below rep' col h3 h4)

  -- A matrix of the same size, in which one cell of `rs` has another value.
  pub record Updated (a : SparseMatrix T) (rs : List (Row T)) (row col : ℕ) (val : T)
      (a' : SparseMatrix T) : Type 0 where
    pub rows' : List (Row T)
    pub spells : Represents scalar 1 a' rows'
    pub same_m : a'.m ≡ a.m
    pub same_n : a'.n ≡ a.n
    pub reads :
        (i j : ℕ)
        → 1 ≤ i
        → value_at scalar rows' i j ≡ (if row == i && col == j then val else value_at scalar rs i j)

  -- `set` is defined on every cell, and changes the value at that cell only.
  pub set_lem :
      (a : SparseMatrix T) (rs : List (Row T)) (row col : ℕ) (val : T)
      → Represents scalar 1 a rs
      → 1 ≤ row
      → row ≤ a.m
      → 1 ≤ col
      → col ≤ a.n
      → (a' : SparseMatrix T) × (set scalar a val row col ≡ ok a') × Updated a rs row col val a'
  set_lem a rs row col val rep h1 h2 h3 h4 =
      let s = around rs (row - 1) (let h = rep.height in omega arith) in
      set_split s.above s.row s.below (rw s.whole at rep) s.whole (let c = s.count in omega arith)
    where
      set_split :
          (above : List (Row T)) (r : Row T) (below : List (Row T))
          → Represents scalar 1 a (above ++ r ∷ below)
          → rs ≡ above ++ r ∷ below
          → row ≡ length above + 1
          → (a' : SparseMatrix T) × (set scalar a val row col ≡ ok a') × Updated a rs row col val a'
      set_split above r below rep' whole e =
          let (a', eq, m, n, spells) = set_row scalar a above r below rep' col h3 h4 val in
          (
            a',
            rw e eq,
            record {
              rows' = above ++ put scalar r col val ∷ below;
              spells = spells;
              same_m = m;
              same_n = n;
              reads = λ i j h.
                  rw (whole, e)
                    (elim (ℕ_discrete (i - 1) (length above)) [
                      | yes p ↦
                          rw (p, row_of_middle, row_of_middle)
                            (lookup-put scalar 1 (a.n + 1) r col val j
                                (AllRows-middle scalar 1 (a.n + 1) above r below rep'.each)
                              ∙ ground arith)
                      | no p ↦
                          rw (row_of_replace above r (put scalar r col val) below (i - 1) p)
                            (ground arith)
                    ]);
            },
          )
