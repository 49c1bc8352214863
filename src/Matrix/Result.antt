-- ===== src/Matrix/Result.antt =====
-- What a call of a matrix method comes to: a value, one of the exceptions of src/matrix/exceptions.h,
-- or undefined behaviour, such as a read out of range or through a pointer that is null or was never
-- set. The messages of the exceptions are left out.
use native.Mathlib.Numerals.{add-one}
use cpp_wtfsc.Base.{
  ℕ, ◌<◌, [], ◌∷◌, ◌++◌, map, get_elem?_in_range, ◌+◌, ◌≡◌, refl, List, none, some, Bool, true,
  false, get_elem?, length,
}

pub data Result {ℓ} (A : Type ℓ) : Type ℓ where
  ok : A → Result A
  invalid_dimensions : Result A
  invalid_coordinates : Result A
  undefined : Result A

infixl 5 ◌>>=◌
abbrev pub ◌>>=◌ {ℓ κ} : {A : Type ℓ} {B : Type κ} → Result A → (A → Result B) → Result B
ok a >>= f = f a
invalid_dimensions >>= f = invalid_dimensions
invalid_coordinates >>= f = invalid_coordinates
undefined >>= f = undefined

-- A raw pointer: null, never assigned or freed, or to an object that it owns.
pub data Pointer {ℓ} (A : Type ℓ) : Type ℓ where
  null : Pointer A
  wild : Pointer A
  to : A → Pointer A

abbrev pub deref {ℓ} : {A : Type ℓ} → Pointer A → Result A
deref null = undefined
deref wild = undefined
deref (to a) = ok a

abbrev pub is_null {ℓ} : {A : Type ℓ} → Pointer A → Bool
is_null null = true
is_null wild = false
is_null (to a) = false

-- `v[i]`
unfoldable pub at {ℓ} : {A : Type ℓ} → List A → ℕ → Result A
at xs i = elim (get_elem? xs i) [ none ↦ undefined | some x ↦ ok x ]

pub at-append_middle {ℓ} :
    {A : Type ℓ} (xs : List A) (y : A) (ys : List A) → at (xs ++ y ∷ ys) (length xs) ≡ ok y
unfolding at
at-append_middle [] y ys = refl
at-append_middle (x ∷ xs) y ys = at-append_middle xs y ys

pub at-map_middle {ℓ κ} :
    {A : Type ℓ} {B : Type κ} (f : A → B) (xs : List A) (y : A) (ys : List A)
    → at (map f (xs ++ y ∷ ys)) (length xs) ≡ ok (f y)
unfolding at
at-map_middle f [] y ys = refl
at-map_middle f (x ∷ xs) y ys = at-map_middle f xs y ys

pub at_in_range {ℓ} :
    {A : Type ℓ} (xs : List A) (i : ℕ)
    → i < length xs
    → (x : A) × (at xs i ≡ ok x) × (get_elem? xs i ≡ some x)
unfolding at
at_in_range xs i h = let (x, e) = get_elem?_in_range xs i h in (x, rw (e, at), e)

pub at-append_second {ℓ} :
    {A : Type ℓ} (xs : List A) (y z : A) (ys : List A)
    → at (xs ++ y ∷ z ∷ ys) (length xs + 1) ≡ ok z
unfolding at
at-append_second [] y z ys = refl
at-append_second (x ∷ xs) y z ys = rw add-one (rw add-one at (at-append_second xs y z ys))
