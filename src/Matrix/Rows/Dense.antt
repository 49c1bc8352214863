-- ===== src/Matrix/Rows/Dense.antt =====
-- The loop over the entries of one row that adds up a product with a vector, in both matrix classes,
-- and the sum over all columns that it stands for.
use cpp_wtfsc.Base.{
  ℕ, suc, ◌+◌, ◌-◌, ◌≤◌, ◌≡◌, refl, sym, ap, ◌∙◌, List, [], ◌∷◌, ◌++◌, length, arith, length-append,
  append_assoc, true, false, ltb, ◌==◌,
}
use native.Mathlib.Decide.{ℕ_discrete}
use cpp_wtfsc.Base.Arrays.{set-append_middle}
use cpp_wtfsc.Matrix.Storage.{vector_assign}
use cpp_wtfsc.Matrix.Result.{Result, ok, ◌>>=◌, at, at-append_middle}
use cpp_wtfsc.Matrix.Scalar.{Scalar}
use cpp_wtfsc.Matrix.Rows.{Row, IsRow, lookup}
use cpp_wtfsc.Matrix.Rows.Put.{lookup_below, IsRow-weaken}

-- `v[k] = x` where the parts before and behind the element are known.
pub vector_assign-append_middle {ℓ} :
    {A : Type ℓ} (xs : List A) (y x : A) (ys : List A) (k : ℕ)
    → k ≡ length xs
    → vector_assign (xs ++ y ∷ ys) k x ≡ ok (xs ++ x ∷ ys)
unfolding vector_assign
vector_assign-append_middle xs y x ys k e =
    let t : ltb (length xs) (length (xs ++ y ∷ ys)) ≡ true =
      ground (arith, length-append xs (y ∷ ys)) in
    rw (e, t, set-append_middle) refl

module _ {T : Type 0} (scalar : Scalar T) where
  -- The sum of `f k * x k` over all columns `k`, from `k` on, added to `sum` from the left.
  abbrev pub dense : (ℕ → T) → List T → ℕ → T → T
  dense f [] k sum = sum
  dense f (y ∷ x) k sum = dense f x (k + 1) (scalar.plus sum (scalar.times (f k) y))

  -- The same sum over the entries alone; columns count from `b`.
  abbrev pub sum_row : ℕ → List T → Row T → T → Result T
  sum_row b x [] sum = ok sum
  sum_row b x ((c, v) ∷ r) sum = do
    xc ← at x (c - b)
    sum_row b x r (scalar.plus sum (scalar.times v xc))

  pub dense_agrees :
      (f g : ℕ → T) (x : List T) (k : ℕ) (sum : T)
      → ((j : ℕ) → k ≤ j → f j ≡ g j)
      → dense f x k sum ≡ dense g x k sum
  dense_agrees f g [] k sum same = refl
  dense_agrees f g (y ∷ x) k sum same =
      dense_agrees f g x (k + 1) _ (λ j h. same j (omega arith))
      ∙ ap (λ v. dense g x (k + 1) (scalar.plus sum (scalar.times v y))) (same k (omega arith))

  -- A product with `T()` adds nothing.
  abbrev pub Absorbs : Type 0
  Absorbs = (s y : T) → scalar.plus s (scalar.times scalar.zero y) ≡ s

  module _ (absorbs : Absorbs) where
    pub dense_of_nothing : (x : List T) (k : ℕ) (sum : T) → dense (lookup scalar []) x k sum ≡ sum
    unfolding lookup
    dense_of_nothing [] k sum = refl
    dense_of_nothing (y ∷ x) k sum = dense_of_nothing x (k + 1) _ ∙ absorbs sum y

    module _ (b : ℕ) (whole : List T) where
      -- From column `k` on: the part of the vector before it has been used.
      sum_from :
          (pre x : List T) (k : ℕ) (r : Row T) (sum : T)
          → whole ≡ pre ++ x
          → k ≡ b + length pre
          → IsRow scalar k (b + length whole) r
          → sum_row b whole r sum ≡ ok (dense (lookup scalar r) x k sum)
      unfolding lookup
      sum_from pre x k [] sum e f v = ap ok (sym (dense_of_nothing x k sum))
      sum_from pre [] k ((c, w) ∷ r) sum e f v =
          absurd (let g = ap length e in omega (arith, length-append pre []))
      sum_from pre (y ∷ x) k ((c, w) ∷ r) sum e f v =
          let e' : whole ≡ (pre ++ y ∷ []) ++ x = e ∙ sym (append_assoc pre _ _) in
          let f' : k + 1 ≡ b + length (pre ++ y ∷ []) = omega (arith, length-append pre (y ∷ [])) in
          elim (ℕ_discrete c k)
            as (λ _.
              sum_row b whole ((c, w) ∷ r) sum
              ≡ ok (dense (lookup scalar ((c, w) ∷ r)) (y ∷ x) k sum)) [
                | yes here ↦
                    let read : at whole (c - b) ≡ ok y =
                      let g : c - b ≡ length pre = omega arith in
                      rw (g, e) (at-append_middle pre y x) in
                    let other : (j : ℕ)
                        → k + 1 ≤ j
                        → lookup scalar r j ≡ lookup scalar ((c, w) ∷ r) j =
                      λ j h. ground arith in
                    let this : (c == k) ≡ true = ground arith in
                    rw (read, this)
                      (sum_from (pre ++ y ∷ []) x (k + 1) r _ e' f'
                          (IsRow-weaken scalar (suc c) (k + 1) _ r (omega arith) v.3)
                        ∙ ap ok (dense_agrees _ _ x (k + 1) _ other))
                | no far ↦
                    let none_here : lookup scalar ((c, w) ∷ r) k ≡ scalar.zero =
                      let below : lookup scalar r k ≡ scalar.zero =
                        lookup_below scalar (suc c) (b + length whole) r k v.3 (omega arith) in
                      let other : (c == k) ≡ false = ground arith in rw other below in
                    sum_from (pre ++ y ∷ []) x (k + 1) ((c, w) ∷ r) sum e' f'
                      (omega arith, v.1, v.2, v.3)
                    ∙ ap (λ s. ok (dense (lookup scalar ((c, w) ∷ r)) x (k + 1) s))
                        (sym (rw none_here (absorbs sum y)))
              ]

    -- The sum over the entries of a row is the sum over all columns.
    pub sum_row_lem :
        (b : ℕ) (x : List T) (r : Row T) (sum : T)
        → IsRow scalar b (length x + b) r
        → sum_row b x r sum ≡ ok (dense (lookup scalar r) x b sum)
    sum_row_lem b x r sum v =
        let e : length x + b ≡ b + length x = omega arith in
        sum_from b x [] x b r sum refl (omega arith) (rw e at v)
