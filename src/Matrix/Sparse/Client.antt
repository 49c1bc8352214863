-- ===== src/Matrix/Sparse/Client.antt =====
-- `get` and `set` of src/matrix/sparse_matrix.cpp as a client sees them.
use cpp_wtfsc.Base.{
  ℕ, zero, suc, ◌-◌, ◌≤◌, ◌<◌, ◌≡◌, ◌↔◌, ◌⊎◌, inl, inr, refl, ap, ◌∙◌, [], if◌then◌else◌, ◌==◌,
  ◌&&◌, arith, replicate,
}
use cpp_wtfsc.Matrix.Result.{ok, invalid_dimensions, invalid_coordinates}
use cpp_wtfsc.Matrix.Scalar.{Scalar}
use cpp_wtfsc.Matrix.Sparse.{SparseMatrix, init, validate_coordinates, get, set}
use cpp_wtfsc.Matrix.Rows.{lookup}
use cpp_wtfsc.Matrix.Sparse.Represents.{row_of, value_at}
use cpp_wtfsc.Matrix.Sparse.Values.{get_lem, set_lem}
use cpp_wtfsc.Matrix.Sparse.Cells.{IsMatrix, init-Represents}

module _ {T : Type 0} where
  row_of_fresh : (m k : ℕ) → row_of {T = T} (replicate m []) k ≡ []
  row_of_fresh zero k = refl
  row_of_fresh (suc m) zero = refl
  row_of_fresh (suc m) (suc k) = row_of_fresh m k

  no_matrix : (m n : ℕ) → (m < 1) ⊎ (n < 1) → init {T = T} m n ≡ invalid_dimensions
  unfolding init
  no_matrix m n (inl h) = ground arith
  no_matrix m n (inr h) = ground arith

module _ {T : Type 0} (scalar : Scalar T) where
  value_of_fresh : (m i j : ℕ) → value_at scalar (replicate m []) i j ≡ scalar.zero
  unfolding lookup
  value_of_fresh m i j = rw (row_of_fresh m (i - 1)) refl

  -- `set` on a cell of a matrix returns a matrix of the same size; `get` then returns the new value at
  -- that cell, also where the value is `T()`, and at every other cell what it returned before.
  pub get-set :
      (a : SparseMatrix T) (val : T) (row col : ℕ)
      → IsMatrix scalar a
      → 1 ≤ row
      → row ≤ a.m
      → 1 ≤ col
      → col ≤ a.n
      → (a' : SparseMatrix T) × (set scalar a val row col ≡ ok a')
        × IsMatrix scalar a'
        × (a'.m ≡ a.m)
        × (a'.n ≡ a.n)
        × ((i j : ℕ)
            → 1 ≤ i
            → i ≤ a.m
            → 1 ≤ j
            → j ≤ a.n
            → get scalar a' i j ≡ (if row == i && col == j then ok val else get scalar a i j))
  get-set a val row col v h1 h2 h3 h4 =
      let (a', e, u) = set_lem scalar a v.rs row col val v.spells h1 h2 h3 h4 in
      (
        a',
        e,
        record {
          rs = u.rows';
          spells = u.spells;
          tall = rw u.same_m v.tall;
          wide = rw u.same_n v.wide;
        },
        u.same_m,
        u.same_n,
        λ i j k1 k2 k3 k4. ground (
          arith,
          get_lem scalar a' u.rows' i j u.spells k1 (rw u.same_m k2) k3 (rw u.same_n k4),
          get_lem scalar a v.rs i j v.spells k1 k2 k3 k4,
          u.reads i j k1,
        ),
      )

  -- The constructor refuses a dimension of 0, and otherwise makes a matrix of the given size in which
  -- every cell is `T()`.
  pub get-init :
      (m n : ℕ)
      → ((m < 1) ⊎ (n < 1) → init {T = T} m n ≡ invalid_dimensions)
        × (1 ≤ m
            → 1 ≤ n
            → (a : SparseMatrix T) × (init m n ≡ ok a)
              × IsMatrix scalar a
              × (a.m ≡ m)
              × (a.n ≡ n)
              × ((i j : ℕ) → 1 ≤ i → i ≤ m → 1 ≤ j → j ≤ n → get scalar a i j ≡ ok scalar.zero))
  get-init m n = (
    no_matrix m n,
    λ h k.
        let (a, e, em, en, rep) = init-Represents scalar m n h k in
        (
          a,
          e,
          record { rs = replicate m []; spells = rep; tall = rw em h; wide = rw en k },
          em,
          en,
          λ i j k1 k2 k3 k4.
              get_lem scalar a (replicate m []) i j rep k1 (rw em k2) k3 (rw en k4)
              ∙ ap ok (value_of_fresh m i j),
        ),
  )

in_or_out :
    (row col m n : ℕ)
    → ((row < 1) ⊎ ((col < 1) ⊎ ((m < row) ⊎ (n < col))))
      ⊎ ((1 ≤ row) × (row ≤ m) × (1 ≤ col) × (col ≤ n))
in_or_out row col m n = ground arith

module _ {T : Type 0} (scalar : Scalar T) (a : SparseMatrix T) (va : IsMatrix scalar a) where
  get_outside :
      (row col : ℕ)
      → (row < 1) ⊎ ((col < 1) ⊎ ((a.m < row) ⊎ (a.n < col)))
      → get scalar a row col ≡ invalid_coordinates
  unfolding get validate_coordinates
  get_outside row col (inl h) = ground arith
  get_outside row col (inr (inl h)) = ground arith
  get_outside row col (inr (inr (inl h))) = ground arith
  get_outside row col (inr (inr (inr h))) = ground arith

  set_outside :
      (val : T) (row col : ℕ)
      → (row < 1) ⊎ ((col < 1) ⊎ ((a.m < row) ⊎ (a.n < col)))
      → set scalar a val row col ≡ invalid_coordinates
  unfolding set validate_coordinates
  set_outside val row col (inl h) = ground arith
  set_outside val row col (inr (inl h)) = ground arith
  set_outside val row col (inr (inr (inl h))) = ground arith
  set_outside val row col (inr (inr (inr h))) = ground arith

  -- `get` and `set` throw `InvalidCoordinatesException` on exactly the coordinates outside the matrix.
  pub refused_coordinates :
      (val : T) (row col : ℕ)
      → ((get scalar a row col ≡ invalid_coordinates)
          ↔ ((row < 1) ⊎ ((col < 1) ⊎ ((a.m < row) ⊎ (a.n < col)))))
        × ((set scalar a val row col ≡ invalid_coordinates)
            ↔ ((row < 1) ⊎ ((col < 1) ⊎ ((a.m < row) ⊎ (a.n < col)))))
  refused_coordinates val row col = elim (in_or_out row col a.m a.n) [
    | inl out ↦ ((λ _. out, get_outside row col), (λ _. out, set_outside val row col))
    | inr (h1, h2, h3, h4) ↦
        let g = get_lem scalar a va.rs row col va.spells h1 h2 h3 h4 in
        let (a', e, u) = set_lem scalar a va.rs row col val va.spells h1 h2 h3 h4 in
        (
          (λ r. absurd (ground (arith, g, r)), get_outside row col),
          (λ r. absurd (ground (arith, e, r)), set_outside val row col),
        )
  ]
