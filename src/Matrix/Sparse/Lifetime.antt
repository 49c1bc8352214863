-- ===== src/Matrix/Sparse/Lifetime.antt =====
-- Copies, assignment, destruction and comparison in src/matrix/sparse_matrix.cpp.
use cpp_wtfsc.Base.{
  ℕ, ◌+◌, ◌≡◌, ◌⊎◌, inl, inr, refl, Bool, true, false, ◌&&◌, List, [], ◌∷◌, ◌==◌, if◌then◌else◌,
  arith, replicate,
}
use cpp_wtfsc.Matrix.Result.{Result, ok, undefined, ◌>>=◌, Pointer, null, wild, to, deref, is_null}
use cpp_wtfsc.Matrix.Scalar.{Scalar}
use cpp_wtfsc.Matrix.Sparse.{SparseMatrix, init}

module _ {T : Type 0} where
  -- The object that `deepCopy` fills; `rows` is always made anew.
  unfoldable pub deep_copy : SparseMatrix T → SparseMatrix T → Result (SparseMatrix T)
  deep_copy this matrix =
      let sized = record this { m = matrix.m; n = matrix.n; rows = matrix.rows } in
      let full = (do
        cs ← deref matrix.cols
        vs ← deref matrix.vals
        ok (record sized { cols = to cs; vals = to vs })) in
      if is_null matrix.vals then ok sized else full

  -- The copy constructor: no member has an initial value.
  unfoldable pub copy : SparseMatrix T → Result (SparseMatrix T)
  unfolding deep_copy
  copy matrix = deep_copy (record { m = 0; n = 0; vals = wild; cols = wild; rows = [] }) matrix

  -- The destructor: what is deleted must be owned, and is dangling afterwards.
  unfoldable pub destruct : SparseMatrix T → Result (SparseMatrix T)
  destruct this =
      let freed = (do
        _ ← deref this.vals
        _ ← deref this.cols
        ok (record this { vals = wild; cols = wild; rows = [] })) in
      if is_null this.vals then ok (record this { rows = [] }) else freed

  -- `operator =`; `self` says whether the two objects are one.
  unfoldable pub assign : Bool → SparseMatrix T → SparseMatrix T → Result (SparseMatrix T)
  unfolding deep_copy destruct
  assign self this matrix =
      if self then ok this else (destruct this >>= λ freed. deep_copy freed matrix)

unfoldable pub equal_lists {ℓ} : {A : Type ℓ} → (A → A → Bool) → List A → List A → Bool
equal_lists eq [] [] = true
equal_lists eq (x ∷ xs) (y ∷ ys) = eq x y && equal_lists eq xs ys
equal_lists eq _ _ = false

-- `(p == NULL && q == NULL) || (p != NULL && q != NULL && *p == *q)`
unfoldable pub equal_pointers {ℓ} :
    {A : Type ℓ} → (A → A → Bool) → Pointer (List A) → Pointer (List A) → Result Bool
unfolding equal_lists
equal_pointers eq null null = ok true
equal_pointers eq null _ = ok false
equal_pointers eq _ null = ok false
equal_pointers eq p q = do xs ← deref p; ys ← deref q; ok (equal_lists eq xs ys)

-- `operator ==`
unfoldable pub equal : {T : Type 0} → Scalar T → SparseMatrix T → SparseMatrix T → Result Bool
unfolding equal_pointers
equal scalar a b = do
  same_vals ← equal_pointers scalar.beq a.vals b.vals
  same_cols ← (if same_vals then equal_pointers ◌==◌ a.cols b.cols else ok false)
  ok (same_cols && equal_lists ◌==◌ a.rows b.rows)

module _ {T : Type 0} (a : SparseMatrix T) where
  -- A matrix whose arrays are there is copied exactly; the copy, and the matrix that was assigned to
  -- from it, can be destroyed.
  pub copy_exact :
      (vs : List T) (cs : List ℕ) (this : SparseMatrix T)
      → a.vals ≡ to vs
      → a.cols ≡ to cs
      → (this.vals ≡ null)
        ⊎ ((ws : List T) × (ds : List ℕ) × (this.vals ≡ to ws) × (this.cols ≡ to ds))
      → (copy a ≡ ok a) × (assign false this a ≡ ok a)
  unfolding copy assign
  copy_exact vs cs this e f (inl g) = ground arith
  copy_exact vs cs this e f (inr (ws, ds, g, h)) = ground arith

  -- A matrix in which no value was ever set is copied with its array pointers unset: to destroy the
  -- copy is undefined behaviour. So it is after the assignment of such a matrix to one with arrays.
  copy_of_unset :
      a.vals ≡ null
      → (copy a >>= destruct ≡ undefined)
        × ((this : SparseMatrix T) (ws : List T) (ds : List ℕ)
            → this.vals ≡ to ws
            → this.cols ≡ to ds
            → assign false this a >>= destruct ≡ undefined)
  unfolding copy assign
  copy_of_unset e = (ground arith, λ this ws ds g h. ground arith)

equal_refl {ℓ} :
    {A : Type ℓ} (eq : A → A → Bool) (refl' : (x : A) → eq x x ≡ true) (xs : List A)
    → equal_lists eq xs xs ≡ true
unfolding equal_lists
equal_refl eq r [] = refl
equal_refl eq r (x ∷ xs) = ground (arith, r x, equal_refl eq r xs)

-- `operator ==` does not look at the number of columns: two fresh matrices with as many rows are equal.
equal_ignores_columns :
    {T : Type 0} (scalar : Scalar T) (m n n' : ℕ) (a b : SparseMatrix T)
    → init m n ≡ ok a
    → init m n' ≡ ok b
    → equal scalar a b ≡ ok true
unfolding equal init
equal_ignores_columns scalar m n n' a b e f =
    ground (arith, equal_refl ◌==◌ (λ (x : ℕ). ground arith) (replicate (m + 1) 1))
