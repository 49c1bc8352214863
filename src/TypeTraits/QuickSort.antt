-- ===== src/TypeTraits/QuickSort.antt =====
-- The compile-time sort of src/type-traits/quicksort.cpp. `Nums<Ns...>` is a list, a template with a
-- `type` is a function, and the depth of instantiation is fuel. Of `int` only its order is used.
pub mod Correct
mod Tests
use cpp_wtfsc.Base.{
  ℕ, zero, suc, ◌≡◌, ◌↔◌, ◌⊎◌, Bool, true, false, List, [], ◌∷◌, ◌++◌, Option, none, some, ◌>>=◌,
  if◌then◌else◌,
}

-- The comparisons of `int`.
pub record Order (A : Type 0) : Type 0 where
  pub lt : A → A → Bool
  pub beq : A → A → Bool
  pub beq_iff : (a b : A) → (beq a b ≡ true) ↔ (a ≡ b)
  pub irreflexive : (a : A) → lt a a ≡ false
  pub transitive : (a b c : A) → lt a b ≡ true → lt b c ≡ true → lt a c ≡ true
  pub total : (a b : A) → (lt a b ≡ true) ⊎ ((beq a b ≡ true) ⊎ (lt b a ≡ true))

module _ {A : Type 0} (order : Order A) where
  -- The three members of `Divide`.
  unfoldable pub left : A → List A → List A
  left pivot [] = []
  left pivot (n ∷ ns) = if order.lt n pivot then n ∷ left pivot ns else left pivot ns

  unfoldable pub mid : A → List A → List A
  mid pivot [] = []
  mid pivot (n ∷ ns) = if order.beq n pivot then n ∷ mid pivot ns else mid pivot ns

  unfoldable pub right : A → List A → List A
  right pivot [] = []
  right pivot (n ∷ ns) = if order.lt pivot n then n ∷ right pivot ns else right pivot ns

  -- `DivideInplace` takes the first number as the pivot.
  unfoldable pub quick_sort : ℕ → List A → Option (List A)
  unfolding left mid right
  quick_sort fuel [] = some []
  quick_sort fuel (n ∷ []) = some (n ∷ [])
  quick_sort zero (n ∷ n' ∷ ns) = none
  quick_sort (suc fuel) (n ∷ n' ∷ ns) = do
    sorted_left ← quick_sort fuel (left n (n ∷ n' ∷ ns))
    sorted_right ← quick_sort fuel (right n (n ∷ n' ∷ ns))
    some ((sorted_left ++ mid n (n ∷ n' ∷ ns)) ++ sorted_right)
