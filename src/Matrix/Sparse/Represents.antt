-- ===== src/Matrix/Sparse/Represents.antt =====
-- When the arrays of a matrix of src/matrix/sparse_matrix.cpp spell given rows of entries.
use cpp_wtfsc.Base.{
  ℕ, zero, suc, ◌+◌, ◌-◌, ◌≡◌, ◌⊎◌, List, [], ◌∷◌, ◌<◌, ap, ap₂, refl, map, replicate, arith,
  length,
}
use cpp_wtfsc.Matrix.Result.{Pointer, null, to, ok, at}
use cpp_wtfsc.Matrix.Scalar.{Scalar}
use cpp_wtfsc.Matrix.Rows.{Row, lookup, entries, offsets}
use cpp_wtfsc.Matrix.Rows.Layout.{columns, values}
use cpp_wtfsc.Matrix.Rows.Splice.{AllRows}
use cpp_wtfsc.Matrix.Sparse.{SparseMatrix}

-- The arrays hold these entries: both are there, or neither is and there is no entry.
abbrev pub Holds : {T : Type 0} → Pointer (List ℕ) → Pointer (List T) → Row T → Type 0
Holds cols vals es =
    ((cols ≡ to (columns es)) × (vals ≡ to (values es)))
    ⊎ ((cols ≡ null) × (vals ≡ null) × (es ≡ []))

-- The row at an index that counts from 0.
abbrev pub row_of : {T : Type 0} → List (Row T) → ℕ → Row T
row_of [] k = []
row_of (r ∷ rs) zero = r
row_of (r ∷ rs) (suc k) = row_of rs k

module _ {T : Type 0} where
  pub at-map-row_of :
      {A : Type 0} (f : Row T → A) (rs : List (Row T)) (i : ℕ)
      → i < length rs
      → at (map f rs) i ≡ ok (f (row_of rs i))
  unfolding at
  at-map-row_of f [] i h = absurd (omega arith)
  at-map-row_of f (r ∷ rs) zero h = refl
  at-map-row_of f (r ∷ rs) (suc i) h = at-map-row_of f rs i (omega arith)

  pub length-map_rows :
      {A : Type 0} (f : Row T → A) (rs : List (Row T)) → length (map f rs) ≡ length rs
  length-map_rows f [] = refl
  length-map_rows f (r ∷ rs) = ap suc (length-map_rows f rs)

  -- Rows without an entry all have the same image.
  pub map_of_nothing :
      {A : Type 0} (f : Row T → A) (z : A) (rs : List (Row T))
      → f [] ≡ z
      → entries rs ≡ []
      → map f rs ≡ replicate (length rs) z
  map_of_nothing f z [] e g = refl
  map_of_nothing f z ([] ∷ rs) e g = ap₂ (λ y ys. y ∷ ys) e (map_of_nothing f z rs e g)
  map_of_nothing f z ((x ∷ r) ∷ rs) e g = absurd (ground arith)

module _ {T : Type 0} (scalar : Scalar T) where
  -- The first offset and the first column are both `b`.
  pub record Represents (b : ℕ) (a : SparseMatrix T) (rs : List (Row T)) : Type 0 where
    pub height : length rs ≡ a.m
    pub starts : a.rows ≡ offsets b rs
    pub holds : Holds a.cols a.vals (entries rs)
    pub each : AllRows scalar b (a.n + b) rs

  -- The value at a row and a column that count from 1.
  abbrev pub value_at : List (Row T) → ℕ → ℕ → T
  value_at rs row col = lookup scalar (row_of rs (row - 1)) col
