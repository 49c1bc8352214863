-- ===== src/Matrix/Storage.antt =====
-- The loops over the three arrays that both matrix classes share, as src/matrix/sparse_matrix.cpp
-- writes them. `cols` and `vals` are read through their pointers in each round, and a counted loop
-- recurs on the rounds that are left.
use cpp_wtfsc.Base.{
  ℕ, zero, suc, ◌+◌, ◌-◌, List, [], ◌∷◌, Option, some, ◌==◌, ltb, leb, length, set, if◌then◌else◌,
}
use cpp_wtfsc.Matrix.Result.{Result, ok, undefined, ◌>>=◌, Pointer, deref, at}
use cpp_wtfsc.Matrix.Scalar.{Scalar}

module _ {ℓ} {A : Type ℓ} where
  abbrev pub insert_at : List A → ℕ → A → List A
  insert_at xs zero v = v ∷ xs
  insert_at [] (suc i) v = []
  insert_at (x ∷ xs) (suc i) v = x ∷ insert_at xs i v

  abbrev pub remove_at : List A → ℕ → List A
  remove_at [] i = []
  remove_at (x ∷ xs) zero = xs
  remove_at (x ∷ xs) (suc i) = x ∷ remove_at xs i

  -- `v->insert(v->begin() + i, x)`, `v->erase(v->begin() + i)` and `v[i] = x`
  unfoldable pub vector_insert : List A → ℕ → A → Result (List A)
  vector_insert xs i x = if leb i (length xs) then ok (insert_at xs i x) else undefined

  unfoldable pub vector_erase : List A → ℕ → Result (List A)
  vector_erase xs i = if ltb i (length xs) then ok (remove_at xs i) else undefined

  unfoldable pub vector_assign : List A → ℕ → A → Result (List A)
  vector_assign xs i x = if ltb i (length xs) then ok (set xs i x) else undefined

-- The loop of `insert` that adds 1 to `rows` from index `i` on, and that of `remove`.
unfoldable pub increment_from : ℕ → ℕ → List ℕ → Result (List ℕ)
increment_from zero i rows = ok rows
increment_from (suc rounds) i rows = do
  k ← at rows i
  increment_from rounds (i + 1) (set rows i (k + 1))

unfoldable pub decrement_from : ℕ → ℕ → List ℕ → Result (List ℕ)
decrement_from zero i rows = ok rows
decrement_from (suc rounds) i rows = do
  k ← at rows i
  decrement_from rounds (i + 1) (set rows i (k - 1))

module _ {T : Type 0} (scalar : Scalar T) (cols : Pointer (List ℕ)) (vals : Pointer (List T)) where
  -- The loop of `get` from position `pos`.
  unfoldable pub find_from : ℕ → ℕ → ℕ → Result T
  find_from zero pos col = ok scalar.zero
  find_from (suc rounds) pos col =
      let rest = find_from rounds (pos + 1) col in
      do
        cs ← deref cols
        curr_col ← at cs pos
        if curr_col == col
            then (deref vals >>= λ vs. at vs pos)
            else if ltb col curr_col
            then ok scalar.zero
            else rest

-- The loop of `set`: where it stops, and the last column that it has read.
unfoldable pub locate_from : Pointer (List ℕ) → ℕ → ℕ → Option ℕ → ℕ → Result (ℕ × Option ℕ)
locate_from cols zero pos curr_col col = ok (pos, curr_col)
locate_from cols (suc rounds) pos curr_col col = do
  cs ← deref cols
  c ← at cs pos
  if leb col c then ok (pos, some c) else locate_from cols rounds (pos + 1) (some c) col
