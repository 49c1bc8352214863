-- ===== src/Matrix/Parallel/Access.antt =====
-- `get` and `set` of src/parallel-sparse-matrix/sparse_matrix.h at one row.
use cpp_wtfsc.Base.{ℕ, ◌+◌, ◌-◌, ◌<◌, ◌≡◌, List, ◌∷◌, ◌++◌, length, none, arith, refl, ap, ◌∙◌}
use cpp_wtfsc.Matrix.Result.{ok, at}
use cpp_wtfsc.Matrix.Scalar.{Scalar}
use cpp_wtfsc.Matrix.Rows.{Row, lookup, put, entries}
use cpp_wtfsc.Matrix.Rows.Layout.{at-offsets}
use cpp_wtfsc.Matrix.Sparse
use cpp_wtfsc.Matrix.Sparse.{SparseMatrix}
use cpp_wtfsc.Matrix.Sparse.Represents.{Represents}
use cpp_wtfsc.Matrix.Sparse.Edit.{found, located, Replaces, stored}
use cpp_wtfsc.Matrix.Parallel
use cpp_wtfsc.Matrix.Parallel.{get, set}

module _ {T : Type 0} (scalar : Scalar T) where
  -- The two classes change their arrays in the same way; only the name of the row differs.
  insert_same :
      (a : SparseMatrix T) (index row col : ℕ) (val : T)
      → Parallel.insert scalar a index row col val ≡ Sparse.insert scalar a index (row + 1) col val
  unfolding Parallel.insert Sparse.insert
  insert_same a index row col val =
      let e : a.m + 1 - (row + 1) ≡ a.m - row = omega arith in rw e refl

  remove_same :
      (a : SparseMatrix T) (index row : ℕ)
      → Parallel.remove scalar a index row ≡ Sparse.remove scalar a index (row + 1)
  unfolding Parallel.remove Sparse.remove
  remove_same a index row = let e : a.m + 1 - (row + 1) ≡ a.m - row = omega arith in rw e refl

  -- Where a row begins and ends.
  pub ends :
      (a : SparseMatrix T) (above : List (Row T)) (r : Row T) (below : List (Row T))
      → Represents scalar 0 a (above ++ r ∷ below)
      → (at a.rows (length above) ≡ ok (length (entries above)))
        × (at a.rows (length above + 1) ≡ ok (length (entries above) + length r))
  ends a above r below rep =
      let (s, t) = at-offsets 0 above r below in
      let e : 0 + length (entries above) ≡ length (entries above) = omega arith in
      (
        ap (λ s. at s (length above)) rep.starts ∙ s ∙ ap ok e,
        ap (λ s. at s (length above + 1)) rep.starts ∙ t ∙ ap (λ k. ok (k + length r)) e,
      )

  module _ (a : SparseMatrix T) (above : List (Row T)) (r : Row T) (below : List (Row T))
      (rep : Represents scalar 0 a (above ++ r ∷ below)) (col : ℕ) (hi : col < a.n) where
    abbrev pub inside : col < a.n + 0
    inside = omega arith

    span : length (entries above) + length r - length (entries above) ≡ length r
    span = omega arith

    -- `get` returns the value in the row that stands at its first argument.
    pub get_row : get scalar a (length above) col ≡ ok (lookup scalar r col)
    unfolding get
    get_row =
        rw ((ends a above r below rep).0, (ends a above r below rep).1, span)
          (found scalar 0 a above r below rep col (omega arith) inside rep.holds)

    -- `set` gives the column its new value in the row that stands at its first argument.
    pub set_row :
        (val : T)
        → Replaces scalar 0 a above r below rep col
            (omega arith)
            inside
            (put scalar r col val)
            (set scalar a (length above) col val)
    unfolding set
    set_row val =
        rw
          (
            (ends a above r below rep).0,
            (ends a above r below rep).1,
            span,
            located scalar 0 a above r below rep col (omega arith) inside none,
            insert_same,
            remove_same,
          )
          (stored scalar 0 a above r below rep col (omega arith) inside none val
            (λ e. ground arith))
