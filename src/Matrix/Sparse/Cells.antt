-- ===== src/Matrix/Sparse/Cells.antt =====
-- The loops of src/matrix/sparse_matrix.cpp that fill a new matrix cell by cell, and the operations
-- that are built on them.
use cpp_wtfsc.Base.{
  ℕ, zero, suc, ◌+◌, ◌≤◌, ◌<◌, ◌≡◌, inr, refl, ap, ap₂, ◌∙◌, List, [], ◌∷◌, if◌then◌else◌, ◌==◌,
  ◌&&◌, arith, replicate, length-replicate, ltb, leb,
}
use native.Mathlib.Numerals.{add-one}
use cpp_wtfsc.Matrix.Result.{Result, ok, null, ◌>>=◌}
use cpp_wtfsc.Matrix.Scalar.{Scalar}
use cpp_wtfsc.Matrix.Rows.{Row, entries, offsets}
use cpp_wtfsc.Matrix.Rows.Splice.{AllRows}
use cpp_wtfsc.Matrix.Sparse.{SparseMatrix, init, get}
use cpp_wtfsc.Matrix.Sparse.Arithmetic.{fill_columns, fill_rows}
use cpp_wtfsc.Matrix.Sparse.Represents.{Represents, value_at}
use cpp_wtfsc.Matrix.Sparse.Values.{get_lem, set_lem}

-- One more cell of a row, and one more row, as tests on the indices.
column_step :
    {T : Type 0} (i j p q rounds : ℕ) (new here old now : T)
    → (i ≡ p → j ≡ q → here ≡ new)
    → now ≡ (if i == p && j == q then here else old)
    → (if p == i && (leb (j + 1) q && ltb q (j + 1 + rounds)) then new else now)
      ≡ (if p == i && (leb j q && ltb q (j + suc rounds)) then new else old)
column_step i j p q rounds new here old now same e = ground arith

row_step :
    {T : Type 0} (i p q rounds n : ℕ) (new old now : T)
    → now ≡ (if p == i && (leb 1 q && ltb q (1 + n)) then new else old)
    → (if (leb (i + 1) p && ltb p (i + 1 + rounds)) && (leb 1 q && leb q n) then new else now)
      ≡ (if (leb i p && ltb p (i + suc rounds)) && (leb 1 q && leb q n) then new else old)
row_step i p q rounds n new old now e = ground arith

module _ {T : Type 0} (scalar : Scalar T) where
  -- A matrix of the same size whose cells are given by `f`.
  pub record Filled (a : SparseMatrix T) (f : ℕ → ℕ → T) (a' : SparseMatrix T) : Type 0 where
    pub rows' : List (Row T)
    pub spells : Represents scalar 1 a' rows'
    pub same_m : a'.m ≡ a.m
    pub same_n : a'.n ≡ a.n
    pub reads : (i j : ℕ) → 1 ≤ i → value_at scalar rows' i j ≡ f i j

  module _ (cell : ℕ → ℕ → Result T) (g : ℕ → ℕ → T) where
    fill_columns_lem :
        (rounds i j : ℕ) (a : SparseMatrix T) (rs : List (Row T))
        → Represents scalar 1 a rs
        → 1 ≤ i
        → i ≤ a.m
        → 1 ≤ j
        → j + rounds ≤ a.n + 1
        → ((q : ℕ) → j ≤ q → q < j + rounds → cell i q ≡ ok (g i q))
        → (a' : SparseMatrix T) × (fill_columns scalar cell rounds i j a ≡ ok a')
          × Filled a
              (λ p q.
                if p == i && (leb j q && ltb q (j + rounds)) then g p q else value_at scalar rs p q)
              a'
    unfolding fill_columns
    fill_columns_lem zero i j a rs rep h1 h2 h3 h4 cells = (
      a,
      refl,
      record {
        rows' = rs;
        spells = rep;
        same_m = refl;
        same_n = refl;
        reads = λ p q h. ground arith;
      },
    )
    fill_columns_lem (suc rounds) i j a rs rep h1 h2 h3 h4 cells =
        let (b, e, u) = set_lem scalar a rs i j (g i j) rep h1 h2 h3 (omega arith) in
        let here = cells j (omega arith) (omega arith) in
        let (a', run, w) =
          fill_columns_lem rounds i (j + 1) b u.rows' u.spells h1 (rw u.same_m h2) (omega arith)
            (rw u.same_n (omega arith)) (λ q lo hi. cells q (omega arith) (omega arith)) in
        (
          a',
          rw (here, e) run,
          record {
            rows' = w.rows';
            spells = w.spells;
            same_m = w.same_m ∙ u.same_m;
            same_n = w.same_n ∙ u.same_n;
            reads =
                λ p q h. w.reads p q h ∙ column_step i j p q rounds _ _ _ _ (ap₂ g) (u.reads p q h);
          },
        )

    fill_rows_lem :
        (rounds i n : ℕ) (a : SparseMatrix T) (rs : List (Row T))
        → a.n ≡ n
        → Represents scalar 1 a rs
        → 1 ≤ i
        → i + rounds ≤ a.m + 1
        → ((p q : ℕ) → i ≤ p → p < i + rounds → 1 ≤ q → q ≤ n → cell p q ≡ ok (g p q))
        → (a' : SparseMatrix T) × (fill_rows scalar cell n rounds i a ≡ ok a')
          × Filled a
              (λ p q.
                if (leb i p && ltb p (i + rounds)) && (leb 1 q && leb q n)
                then g p q
                else value_at scalar rs p q)
              a'
    unfolding fill_rows
    fill_rows_lem zero i n a rs wide rep h1 h2 cells = (
      a,
      refl,
      record {
        rows' = rs;
        spells = rep;
        same_m = refl;
        same_n = refl;
        reads = λ p q h. ground arith;
      },
    )
    fill_rows_lem (suc rounds) i n a rs wide rep h1 h2 cells =
        let (b, e, u) =
          fill_columns_lem n i 1 a rs rep h1 (omega arith) (omega arith) (omega arith)
            (λ q lo hi. cells i q (omega arith) (omega arith) lo (omega arith)) in
        let (a', run, w) =
          fill_rows_lem rounds (i + 1) n b u.rows' (u.same_n ∙ wide) u.spells (omega arith)
            (rw u.same_m (omega arith))
            (λ p q lo hi lo' hi'. cells p q (omega arith) (omega arith) lo' hi') in
        (
          a',
          rw e run,
          record {
            rows' = w.rows';
            spells = w.spells;
            same_m = w.same_m ∙ u.same_m;
            same_n = w.same_n ∙ u.same_n;
            reads = λ p q h. w.reads p q h ∙ (row_step i p q rounds n _ _ _ (u.reads p q h));
          },
        )

  fresh_offsets : (m : ℕ) → replicate (suc m) 1 ≡ offsets {T = T} 1 (replicate m [])
  fresh_offsets zero = refl
  fresh_offsets (suc m) = ap (◌∷◌ 1) (fresh_offsets m)

  fresh_entries : (m : ℕ) → entries {T = T} (replicate m []) ≡ []
  fresh_entries zero = refl
  fresh_entries (suc m) = fresh_entries m

  fresh_rows : (n m : ℕ) → AllRows scalar 1 (n + 1) (replicate m [])
  fresh_rows n zero = tt
  fresh_rows n (suc m) = (tt, fresh_rows n m)

  -- The constructor makes rows with no entry.
  pub init-Represents :
      (m n : ℕ)
      → 1 ≤ m
      → 1 ≤ n
      → (a : SparseMatrix T) × (init m n ≡ ok a)
        × (a.m ≡ m)
        × (a.n ≡ n)
        × Represents scalar 1 a (replicate m [])
  unfolding init
  init-Represents m n h k = (
    record { m = m; n = n; vals = null; cols = null; rows = replicate (m + 1) 1 },
    ground arith,
    refl,
    refl,
    record {
      height = length-replicate m [];
      starts = rw add-one (fresh_offsets m);
      holds = inr (refl, refl, fresh_entries m);
      each = fresh_rows n m;
    },
  )

  -- A matrix with at least one row and one column whose arrays spell some rows.
  pub record IsMatrix (a : SparseMatrix T) : Type 0 where
    pub rs : List (Row T)
    pub spells : Represents scalar 1 a rs
    pub tall : 1 ≤ a.m
    pub wide : 1 ≤ a.n

  -- A call that returned an `m` by `n` matrix with the value `f i j` at row `i` and column `j`.
  abbrev pub HasCells : ℕ → ℕ → (ℕ → ℕ → T) → Result (SparseMatrix T) → Type 0
  HasCells m n f out =
      (c : SparseMatrix T) × (out ≡ ok c)
      × IsMatrix c
      × (c.m ≡ m)
      × (c.n ≡ n)
      × ((i j : ℕ) → 1 ≤ i → i ≤ m → 1 ≤ j → j ≤ n → get scalar c i j ≡ ok (f i j))

  -- The value at a cell: what `get` returns there.
  abbrev pub value : {a : SparseMatrix T} → IsMatrix a → ℕ → ℕ → T
  value v i j = value_at scalar v.rs i j

  pub value_lem :
      {a : SparseMatrix T} (v : IsMatrix a) (i j : ℕ)
      → 1 ≤ i
      → i ≤ a.m
      → 1 ≤ j
      → j ≤ a.n
      → get scalar a i j ≡ ok (value v i j)
  value_lem {a} v i j h1 h2 h3 h4 = get_lem scalar a v.rs i j v.spells h1 h2 h3 h4

  pub cells_lem :
      (m n : ℕ) (cell : ℕ → ℕ → Result T) (g : ℕ → ℕ → T)
      → 1 ≤ m
      → 1 ≤ n
      → ((p q : ℕ) → 1 ≤ p → p ≤ m → 1 ≤ q → q ≤ n → cell p q ≡ ok (g p q))
      → HasCells m n g (init m n >>= λ result. fill_rows scalar cell n m 1 result)
  cells_lem m n cell g h k cells =
      let (a, e, em, en, rep) = init-Represents m n h k in
      let (c, run, w) =
        fill_rows_lem cell g m 1 n a (replicate m []) en rep (omega arith) (rw em (omega arith))
          (λ p q a1 a2 a3 a4. cells p q a1 (omega arith) a3 a4) in
      (
        c,
        rw e run,
        record {
          rs = w.rows';
          spells = w.spells;
          tall = rw (w.same_m, em) h;
          wide = rw (w.same_n, en) k;
        },
        w.same_m ∙ em,
        w.same_n ∙ en,
        λ i j a1 a2 a3 a4.
            get_lem scalar c w.rows' i j w.spells a1 (rw (w.same_m, em) a2) a3
              (rw (w.same_n, en) a4)
            ∙ ap ok (w.reads i j a1 ∙ ground arith),
      )
