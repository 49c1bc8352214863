-- ===== src/Matrix/Sparse/Access.antt =====
-- `get` and `set` of src/matrix/sparse_matrix.cpp at one row.
use cpp_wtfsc.Base.{ℕ, ◌+◌, ◌-◌, ◌≤◌, ◌<◌, ◌≡◌, List, ◌∷◌, ◌++◌, length, some, arith}
use cpp_wtfsc.Matrix.Result.{ok, at}
use cpp_wtfsc.Matrix.Scalar.{Scalar}
use cpp_wtfsc.Matrix.Rows.{Row, lookup, put, entries}
use cpp_wtfsc.Matrix.Sparse.{SparseMatrix, validate_coordinates, get, set}
use cpp_wtfsc.Matrix.Sparse.Represents.{Represents}
use cpp_wtfsc.Matrix.Sparse.Edit.{above_in, starts_at, found, located, Replaces, stored}

pub validate_lem :
    {T : Type 0} (a : SparseMatrix T) (row col : ℕ)
    → 1 ≤ row
    → row ≤ a.m
    → 1 ≤ col
    → col ≤ a.n
    → validate_coordinates a row col ≡ ok tt
unfolding validate_coordinates
validate_lem a row col h1 h2 h3 h4 = ground arith

module _ {T : Type 0} (scalar : Scalar T) where
  module _ (a : SparseMatrix T) (above : List (Row T)) (r : Row T) (below : List (Row T))
      (rep : Represents scalar 1 a (above ++ r ∷ below)) (col : ℕ) (lo : 1 ≤ col)
      (hi : col ≤ a.n) where
    abbrev pub inside : col < a.n + 1
    inside = omega arith

    span : 1 + length (entries above) + length r - 1 - (1 + length (entries above) - 1) ≡ length r
    span = omega arith

    first : 1 + length (entries above) - 1 ≡ length (entries above)
    first = omega arith

    index : length above + 1 - 1 ≡ length above
    index = omega arith

    valid : validate_coordinates a (length above + 1) col ≡ ok tt
    valid =
        validate_lem a (length above + 1) col (omega arith)
          (above_in scalar 1 a above r below rep col lo inside) lo hi

    ends :
        (at a.rows (length above) ≡ ok (1 + length (entries above)))
        × (at a.rows (length above + 1) ≡ ok (1 + length (entries above) + length r))
    ends = starts_at scalar 1 a above r below rep col lo inside

    -- `get` returns the value in the row that stands at its first argument.
    pub get_row : get scalar a (length above + 1) col ≡ ok (lookup scalar r col)
    unfolding get
    get_row =
        rw (valid, index, ends.0, ends.1, span, first)
          (found scalar 1 a above r below rep col lo inside rep.holds)

    -- `set` gives the column its new value in the row that stands at its second argument.
    pub set_row :
        (val : T)
        → Replaces scalar 1 a above r below rep col lo inside
            (put scalar r col val)
            (set scalar a val (length above + 1) col)
    unfolding set
    set_row val =
        rw
          (
            valid,
            index,
            ends.0,
            ends.1,
            span,
            first,
            located scalar 1 a above r below rep col lo inside (some 0),
          )
          (stored scalar 1 a above r below rep col lo inside (some 0) val (λ e. ground arith))
