-- ===== src/Matrix/Rows.antt =====
-- A matrix as rows of entries, and how the three arrays of compressed row storage spell it.
pub mod Put
pub mod Layout
pub mod Splice
pub mod Dense
use cpp_wtfsc.Base.{
  ℕ, suc, ◌+◌, ◌≤◌, ◌<◌, ◌≡◌, ◌≢◌, List, [], ◌∷◌, ◌++◌, ◌==◌, ltb, length, if◌then◌else◌,
}
use cpp_wtfsc.Matrix.Scalar.{Scalar}

-- Column and value, by column.
abbrev pub Row : Type 0 → Type 0
Row T = List (ℕ × T)

module _ {T : Type 0} where
  -- All entries, row after row.
  abbrev pub entries : List (Row T) → Row T
  entries [] = []
  entries (r ∷ rs) = r ++ entries rs

  -- Where each row begins, and where the last one ends, if the first begins at `b`.
  abbrev pub offsets : ℕ → List (Row T) → List ℕ
  offsets b [] = b ∷ []
  offsets b (r ∷ rs) = b ∷ offsets (b + length r) rs

module _ {T : Type 0} (scalar : Scalar T) where
  -- Columns rise strictly from `lo` to below `hi`, and no value is `T()`.
  abbrev pub IsRow : ℕ → ℕ → Row T → Type 0
  IsRow lo hi [] = Unit
  IsRow lo hi ((c, v) ∷ r) = (lo ≤ c) × (c < hi) × (v ≢ scalar.zero) × IsRow (suc c) hi r

  -- The value in a column.
  unfoldable pub lookup : Row T → ℕ → T
  lookup [] col = scalar.zero
  lookup ((c, v) ∷ r) col = if c == col then v else lookup r col

  -- The row with one column given another value.
  unfoldable pub put : Row T → ℕ → T → Row T
  put [] col x = if scalar.beq x scalar.zero then [] else (col, x) ∷ []
  put ((c, v) ∷ r) col x =
      if ltb c col
      then (c, v) ∷ put r col x
      else if c == col
      then (if scalar.beq x scalar.zero then r else (col, x) ∷ r)
      else (if scalar.beq x scalar.zero then (c, v) ∷ r else (col, x) ∷ (c, v) ∷ r)
