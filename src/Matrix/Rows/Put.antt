-- ===== src/Matrix/Rows/Put.antt =====
-- One row: reads after a change, and the change as an insertion, a removal or an assignment at the
-- position where the loop of `set` stops.
use cpp_wtfsc.Base.{
  ℕ, suc, ◌≤◌, ◌<◌, ◌≡◌, ◌≢◌, refl, false, [], ◌∷◌, Option, some, ◌==◌, ltb, length, map,
  if◌then◌else◌, arith, set, Bool-cases, inl, inr, ltb→lt, ==_iff,
}
use cpp_wtfsc.Matrix.Scalar.{Scalar}
use cpp_wtfsc.Matrix.Storage.{insert_at, remove_at}
use cpp_wtfsc.Matrix.Rows.{Row, IsRow, lookup, put}

-- How many entries stand before column `col`, and the last column that the loop reads.
abbrev pub count_below : {T : Type 0} → Row T → ℕ → ℕ
count_below [] col = 0
count_below ((c, v) ∷ r) col = if ltb c col then suc (count_below r col) else 0

abbrev pub last_read : {T : Type 0} → Row T → Option ℕ → ℕ → Option ℕ
last_read [] cur col = cur
last_read ((c, v) ∷ r) cur col = if ltb c col then last_read r (some c) col else some c

module _ {T : Type 0} (scalar : Scalar T) where
  pub IsRow-weaken :
      (lo lo' hi : ℕ) (r : Row T) → lo' ≤ lo → IsRow scalar lo hi r → IsRow scalar lo' hi r
  IsRow-weaken lo lo' hi [] h v = tt
  IsRow-weaken lo lo' hi (e ∷ r) h v = (omega arith, v.1, v.2, v.3)

  pub lookup_below :
      (lo hi : ℕ) (r : Row T) (col : ℕ)
      → IsRow scalar lo hi r
      → col < lo
      → lookup scalar r col ≡ scalar.zero
  unfolding lookup
  lookup_below lo hi [] col v h = refl
  lookup_below lo hi ((c, x) ∷ r) col v h = ground (arith, lookup_below (suc c) hi r col v.3)

  pub lookup-put :
      (lo hi : ℕ) (r : Row T) (col : ℕ) (x : T) (q : ℕ)
      → IsRow scalar lo hi r
      → lookup scalar (put scalar r col x) q ≡ (if col == q then x else lookup scalar r q)
  unfolding lookup put
  lookup-put lo hi [] col x q v = ground (arith, scalar.beq_iff x scalar.zero)
  lookup-put lo hi ((c, y) ∷ r) col x q v = ground (
    arith,
    scalar.beq_iff x scalar.zero,
    lookup-put (suc c) hi r col x q v.3,
    lookup_below (suc c) hi r col v.3,
    lookup_below (suc c) hi r q v.3,
  )

  not_zero : (x : T) → scalar.beq x scalar.zero ≡ false → x ≢ scalar.zero
  not_zero x e f = ground (arith, scalar.beq_iff x scalar.zero)

  pub put-IsRow :
      (lo hi : ℕ) (r : Row T) (col : ℕ) (x : T)
      → lo ≤ col
      → col < hi
      → IsRow scalar lo hi r
      → IsRow scalar lo hi (put scalar r col x)
  unfolding put
  put-IsRow lo hi [] col x a b v = ground (arith, scalar.beq_iff x scalar.zero)
  put-IsRow lo hi ((c, y) ∷ r) col x a b v = elim (Bool-cases (ltb c col)) [
    | inl e ↦ rw e (v.0, v.1, v.2, put-IsRow (suc c) hi r col x (ltb→lt c col e) b v.3)
    | inr e ↦ elim (Bool-cases (c == col)) [
      | inl f ↦ elim (Bool-cases (scalar.beq x scalar.zero)) [
        | inl g ↦ rw (e, f, g) (IsRow-weaken (suc c) lo hi r (omega arith) v.3)
        | inr g ↦ rw (e, f, g) (a, b, not_zero x g, rw (← (==_iff c col).0 f) v.3)
      ]
      | inr f ↦ elim (Bool-cases (scalar.beq x scalar.zero)) [
        | inl g ↦ rw (e, f, g) v
        | inr g ↦ rw (e, f, g) (a, b, not_zero x g, (ground arith, v.1, v.2, v.3))
      ]
    ]
  ]

  module _ (col : ℕ) (x : T) where
    pub count_below-le : (r : Row T) → count_below r col ≤ length r
    count_below-le [] = omega arith
    count_below-le ((c, y) ∷ r) = ground (arith, count_below-le r)

    -- The column is not there: nothing is stored for `T()`, anything else is inserted.
    pub put_absent :
        (r : Row T) (cur : Option ℕ)
        → last_read r cur col ≢ some col
        → put scalar r col x
          ≡ (if scalar.beq x scalar.zero then r else insert_at r (count_below r col) (col, x))
    unfolding put
    put_absent [] cur h = refl
    put_absent ((c, y) ∷ r) cur h = ground (arith, put_absent r (some c))

    -- The column is there: `T()` removes it, anything else replaces its value.
    pub put_present :
        (r : Row T) (cur : Option ℕ)
        → cur ≢ some col
        → last_read r cur col ≡ some col
        → (put scalar r col x ≡ (
            if scalar.beq x scalar.zero
            then remove_at r (count_below r col)
            else set r (count_below r col) (col, x)))
          × (count_below r col < length r)
          × (map (λ e. e.0) (set r (count_below r col) (col, x)) ≡ map (λ e. e.0) r)
    unfolding put
    put_present [] cur ne h = absurd (ne h)
    put_present ((c, y) ∷ r) cur ne h = ground (arith, put_present r (some c))
