-- ===== src/Disk/Leveldb/Slice/Order.antt =====
-- `compare` and the tests of src/disk/leveldb/slice.h against the order of strings.
use mathlib.Core.Option
use cpp_wtfsc.Base.{
  ℕ, zero, suc, ◌-◌, some, none, drop, length-take, ◌≤◌, ◌≡◌, ◌↔◌, refl, ap, sym, ◌∙◌, true, ◌&&◌,
  List, [], ◌∷◌, ◌==◌, ltb, leb, length, take, if◌then◌else◌, arith,
}
use cpp_wtfsc.Disk.Leveldb.Slice.{
  Slice, Sign, below, same, above, is_same, memcmp, to_string, starts_with, equal, compare,
  remove_prefix,
}

-- The slice does not reach behind its bytes.
abbrev pub IsSlice : Slice → Type 0
IsSlice a = a.size ≤ length a.bytes

-- The order of a dictionary: the first byte that differs decides, and a front part comes first.
abbrev pub lexicographic : List ℕ → List ℕ → Sign
lexicographic [] [] = same
lexicographic [] (y ∷ ys) = below
lexicographic (x ∷ xs) [] = above
lexicographic (x ∷ xs) (y ∷ ys) =
    if ltb x y then below else if ltb y x then above else lexicographic xs ys

abbrev compare_sizes : ℕ → ℕ → Sign → Sign
compare_sizes m n r =
    if is_same r then (if ltb m n then below else if ltb n m then above else r) else r

compare_from :
    (xs ys : List ℕ) (m n : ℕ)
    → m ≤ length xs
    → n ≤ length ys
    → compare_sizes m n (memcmp xs ys (if ltb m n then m else n))
      ≡ lexicographic (take m xs) (take n ys)
compare_from xs ys zero zero h k = refl
compare_from xs [] zero (suc n) h k = absurd (omega arith)
compare_from xs (y ∷ ys) zero (suc n) h k = ground arith
compare_from [] ys (suc m) zero h k = absurd (omega arith)
compare_from (x ∷ xs) ys (suc m) zero h k = ground arith
compare_from [] ys (suc m) (suc n) h k = absurd (omega arith)
compare_from (x ∷ xs) [] (suc m) (suc n) h k = absurd (omega arith)
compare_from (x ∷ xs) (y ∷ ys) (suc m) (suc n) h k =
    ground (arith, compare_from xs ys m n (omega arith) (omega arith))

lexicographic_same : (xs ys : List ℕ) → (lexicographic xs ys ≡ same) ↔ (xs ≡ ys)
lexicographic_same [] [] = ((λ e. refl), λ e. refl)
lexicographic_same [] (y ∷ ys) = ((λ e. absurd (ground arith)), λ e. absurd (ground arith))
lexicographic_same (x ∷ xs) [] = ((λ e. absurd (ground arith)), λ e. absurd (ground arith))
lexicographic_same (x ∷ xs) (y ∷ ys) = ground (arith, lexicographic_same xs ys)

equal_from :
    (xs ys : List ℕ) (m n : ℕ)
    → m ≤ length xs
    → n ≤ length ys
    → ((m == n && is_same (memcmp xs ys m)) ≡ true) ↔ (take m xs ≡ take n ys)
equal_from xs ys zero zero h k = ((λ e. refl), λ e. refl)
equal_from xs [] zero (suc n) h k = absurd (omega arith)
equal_from xs (y ∷ ys) zero (suc n) h k = ground arith
equal_from [] ys (suc m) n h k = absurd (omega arith)
equal_from (x ∷ xs) ys (suc m) zero h k = ground arith
equal_from (x ∷ xs) [] (suc m) (suc n) h k = absurd (omega arith)
equal_from (x ∷ xs) (y ∷ ys) (suc m) (suc n) h k =
    ground (arith, equal_from xs ys m n (omega arith) (omega arith))

prefix_from :
    (xs ys : List ℕ) (m n : ℕ)
    → m ≤ length xs
    → n ≤ length ys
    → ((leb n m && is_same (memcmp xs ys n)) ≡ true) ↔ (take n (take m xs) ≡ take n ys)
prefix_from xs ys m zero h k = ((λ e. refl), λ e. ground arith)
prefix_from xs [] m (suc n) h k = absurd (omega arith)
prefix_from xs (y ∷ ys) zero (suc n) h k = ground arith
prefix_from [] (y ∷ ys) (suc m) (suc n) h k = absurd (omega arith)
prefix_from (x ∷ xs) (y ∷ ys) (suc m) (suc n) h k =
    ground (arith, prefix_from xs ys m n (omega arith) (omega arith))

-- Of two slices that do not reach behind their bytes: `compare` has the sign of their strings in the
-- order of a dictionary, `==` holds exactly if the strings are equal, and `starts_with` exactly if the
-- first string, cut to the length of the second, is the second.
pub compare_lem :
    (a b : Slice)
    → IsSlice a
    → IsSlice b
    → (compare a b ≡ lexicographic (to_string a) (to_string b))
      × (((equal a b ≡ true) ↔ (to_string a ≡ to_string b))
          × ((starts_with a b ≡ true) ↔ (take b.size (to_string a) ≡ to_string b)))
unfolding compare equal starts_with to_string
compare_lem a b h k = (
  compare_from a.bytes b.bytes a.size b.size h k,
  (equal_from a.bytes b.bytes a.size b.size h k, prefix_from a.bytes b.bytes a.size b.size h k),
)

take-nil : {A : Type 0} → (n : ℕ) → take {A = A} n [] ≡ []
take-nil zero = refl
take-nil (suc n) = refl

drop-take : {A : Type 0} → (xs : List A) (m n : ℕ) → drop n (take m xs) ≡ take (m - n) (drop n xs)
drop-take xs m zero = ap (λ k. take k xs) (omega arith)
drop-take xs zero (suc n) =
    let no_size : 0 ≡ 0 - suc n = omega arith in ap (λ k. take k (drop (suc n) xs)) no_size
drop-take [] (suc m) (suc n) = sym (take-nil (suc m - suc n))
drop-take (x ∷ xs) (suc m) (suc n) =
    let same_size : m - n ≡ suc m - suc n = omega arith in
    drop-take xs m n ∙ ap (λ k. take k (drop n xs)) same_size

-- A prefix within the size is taken off the string; a longer one fails the assertion.
remove_prefix_lem :
    (a : Slice) (n : ℕ)
    → IsSlice a
    → Option.map to_string (remove_prefix a n)
      ≡ (if leb n (length (to_string a)) then some (drop n (to_string a)) else none)
unfolding remove_prefix to_string
remove_prefix_lem a n h = ground (arith, drop-take a.bytes a.size n, length-take a.size a.bytes)
