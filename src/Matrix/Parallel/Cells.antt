-- ===== src/Matrix/Parallel/Cells.antt =====
-- What a client sees of a matrix of src/parallel-sparse-matrix/sparse_matrix.h: the value at each
-- cell.
use cpp_wtfsc.Base.{
  ℕ, ◌+◌, ◌<◌, ◌≡◌, ◌∙◌, sym, List, ◌∷◌, ◌++◌, length, if◌then◌else◌, ◌==◌, ◌&&◌, arith,
}
use native.Mathlib.Decide.{ℕ_discrete}
use cpp_wtfsc.Matrix.Result.{ok}
use cpp_wtfsc.Matrix.Scalar.{Scalar}
use cpp_wtfsc.Matrix.Rows.{Row, lookup, put}
use cpp_wtfsc.Matrix.Rows.Put.{lookup-put}
use cpp_wtfsc.Matrix.Rows.Layout.{around}
use cpp_wtfsc.Matrix.Rows.Splice.{AllRows-middle}
use cpp_wtfsc.Matrix.Sparse.{SparseMatrix}
use cpp_wtfsc.Matrix.Sparse.Represents.{Represents, row_of}
use cpp_wtfsc.Matrix.Sparse.Values.{row_of_middle, row_of_replace}
use cpp_wtfsc.Matrix.Parallel.{get, set}
use cpp_wtfsc.Matrix.Parallel.Access.{get_row, set_row}

module _ {T : Type 0} (scalar : Scalar T) where
  -- A matrix whose arrays spell some rows, counted from 0.
  pub record IsTable (a : SparseMatrix T) : Type 0 where
    pub rs : List (Row T)
    pub spells : Represents scalar 0 a rs

  -- The value at a cell: what `get` returns there.
  abbrev pub cell : {a : SparseMatrix T} → IsTable a → ℕ → ℕ → T
  cell v i j = lookup scalar (row_of v.rs i) j

  pub get_lem :
      {a : SparseMatrix T} (v : IsTable a) (row col : ℕ)
      → row < a.m
      → col < a.n
      → get scalar a row col ≡ ok (cell v row col)
  get_lem {a} v row col h1 h2 =
      let s = around v.rs row (let h = v.spells.height in omega arith) in
      get_split s.above s.row s.below (rw s.whole at v.spells) s.whole (sym s.count)
    where
      get_split :
          (above : List (Row T)) (r : Row T) (below : List (Row T))
          → Represents scalar 0 a (above ++ r ∷ below)
          → v.rs ≡ above ++ r ∷ below
          → row ≡ length above
          → get scalar a row col ≡ ok (lookup scalar (row_of v.rs row) col)
      get_split above r below rep whole e =
          rw (e, whole, row_of_middle) (get_row scalar a above r below rep col h2)

  set_lem :
      (a : SparseMatrix T) (row col : ℕ) (val : T) (v : IsTable a)
      → row < a.m
      → col < a.n
      → (a' : SparseMatrix T) × (set scalar a row col val ≡ ok a')
        × (v' : IsTable a') × (a'.m ≡ a.m)
        × (a'.n ≡ a.n)
        × ((i j : ℕ) → cell v' i j ≡ (if row == i && col == j then val else cell v i j))
  set_lem a row col val v h1 h2 =
      let s = around v.rs row (let h = v.spells.height in omega arith) in
      set_split s.above s.row s.below (rw s.whole at v.spells) s.whole (sym s.count)
    where
      set_split :
          (above : List (Row T)) (r : Row T) (below : List (Row T))
          → Represents scalar 0 a (above ++ r ∷ below)
          → v.rs ≡ above ++ r ∷ below
          → row ≡ length above
          → (a' : SparseMatrix T) × (set scalar a row col val ≡ ok a')
            × (v' : IsTable a') × (a'.m ≡ a.m)
            × (a'.n ≡ a.n)
            × ((i j : ℕ) → cell v' i j ≡ (if row == i && col == j then val else cell v i j))
      set_split above r below rep whole e =
          let (a', eq, m, n, spells) = set_row scalar a above r below rep col h2 val in
          (
            a',
            rw e eq,
            record { rs = above ++ put scalar r col val ∷ below; spells = spells },
            m,
            n,
            λ i j.
                rw (whole, e)
                  (elim (ℕ_discrete i (length above)) [
                    | yes p ↦
                        rw (p, row_of_middle, row_of_middle)
                          (lookup-put scalar 0 (a.n + 0) r col val j
                              (AllRows-middle scalar 0 (a.n + 0) above r below rep.each)
                            ∙ ground arith)
                    | no p ↦
                        rw (row_of_replace above r (put scalar r col val) below i p) (ground arith)
                  ]),
          )

  -- `set` on a cell of a matrix returns a matrix of the same size; `get` then returns the new value at
  -- that cell, also where the value is `T()`, and at every other cell what it returned before.
  get-set_cell :
      (a : SparseMatrix T) (row col : ℕ) (val : T) (v : IsTable a)
      → row < a.m
      → col < a.n
      → (a' : SparseMatrix T) × (set scalar a row col val ≡ ok a')
        × IsTable a'
        × (a'.m ≡ a.m)
        × (a'.n ≡ a.n)
        × ((i j : ℕ)
            → i < a.m
            → j < a.n
            → get scalar a' i j ≡ (if row == i && col == j then ok val else get scalar a i j))
  get-set_cell a row col val v h1 h2 =
      let (a', e, v', m, n, reads) = set_lem a row col val v h1 h2 in
      (
        a',
        e,
        v',
        m,
        n,
        λ i j k1 k2.
            ground (arith, get_lem v' i j (rw m k1) (rw n k2), get_lem v i j k1 k2, reads i j),
      )
