-- ===== src/TypeTraits/QuickSort/Correct.antt =====
-- The sort of src/type-traits/quicksort.cpp ends, and sorts.
use cpp_wtfsc.Base.{
  ℕ, zero, suc, ◌+◌, ◌≤◌, ◌≡◌, inl, inr, refl, true, false, List, [], ◌∷◌, ◌++◌, some,
  if◌then◌else◌, length, arith, Bool-cases,
}
use mathlib.Core.Path.{subst}
use cpp_wtfsc.TypeTraits.QuickSort.{Order, left, mid, right, quick_sort}

abbrev pub All : {A : Type 0} → (A → Type 0) → List A → Type 0
All P [] = Unit
All P (x ∷ xs) = P x × All P xs

module _ {A : Type 0} where
  All-append : (P : A → Type 0) (xs ys : List A) → All P xs → All P ys → All P (xs ++ ys)
  All-append P [] ys a b = b
  All-append P (x ∷ xs) ys (p, a) b = (p, All-append P xs ys a b)

  All-weaken : (P Q : A → Type 0) (xs : List A) → ((x : A) → P x → Q x) → All P xs → All Q xs
  All-weaken P Q [] f a = tt
  All-weaken P Q (x ∷ xs) f (p, a) = (f x p, All-weaken P Q xs f a)

module _ {A : Type 0} (order : Order A) where
  -- No element is above a later one.
  abbrev pub Sorted : List A → Type 0
  Sorted [] = Unit
  Sorted (x ∷ xs) = All (λ y. order.lt y x ≡ false) xs × Sorted xs

  abbrev pub count : A → List A → ℕ
  count x [] = 0
  count x (y ∷ ys) = if order.beq y x then suc (count x ys) else count x ys

  -- The order of two numbers with a pivot between them.
  asymmetric : (a b : A) → order.lt a b ≡ true → order.lt b a ≡ false
  asymmetric a b h = elim (Bool-cases (order.lt b a)) [
    | inr e ↦ e
    | inl e ↦ absurd (ground (arith, order.transitive a b a h e, order.irreflexive a))
  ]

  equal_not_less :
      (a b : A) → order.beq a b ≡ true → (order.lt a b ≡ false) × (order.lt b a ≡ false)
  equal_not_less a b h =
      let e : a ≡ b = ground (arith, h, order.beq_iff a b) in
      (rw e (order.irreflexive b), rw e (order.irreflexive b))

  less_not_equal :
      (a b : A) → order.lt a b ≡ true → (order.beq a b ≡ false) × (order.beq b a ≡ false)
  less_not_equal a b h = (
    differs a b (λ e. ground (arith, h, equal_not_less a b e)),
    differs b a (λ e. ground (arith, h, equal_not_less b a e)),
  )
    where
      differs : (c d : A) → (order.beq c d ≡ true → ⊥) → order.beq c d ≡ false
      differs c d f = elim (Bool-cases (order.beq c d)) [ inl e ↦ absurd (f e) | inr e ↦ e ]

  count-append : (x : A) (xs ys : List A) → count x (xs ++ ys) ≡ count x xs + count x ys
  count-append x [] ys = omega arith
  count-append x (y ∷ xs) ys = ground (arith, count-append x xs ys)

  -- The three parts of a list have its elements.
  count_parts :
      (x p : A) (ns : List A)
      → count x (left order p ns) + count x (mid order p ns) + count x (right order p ns)
        ≡ count x ns
  unfolding left mid right
  count_parts x p [] = omega arith
  count_parts x p (n ∷ ns) = elim (order.total n p) [
    | inl h ↦
        rw (h, asymmetric n p h, (less_not_equal n p h).0) (ground (arith, count_parts x p ns))
    | inr (inl h) ↦
        rw (h, (equal_not_less n p h).0, (equal_not_less n p h).1)
          (ground (arith, count_parts x p ns))
    | inr (inr h) ↦
        rw (h, asymmetric p n h, (less_not_equal p n h).1) (ground (arith, count_parts x p ns))
  ]

  left_below : (p : A) (ns : List A) → All (λ n. order.lt n p ≡ true) (left order p ns)
  unfolding left
  left_below p [] = tt
  left_below p (n ∷ ns) = elim (Bool-cases (order.lt n p)) [
    | inl h ↦ rw h (h, left_below p ns)
    | inr h ↦ rw h (left_below p ns)
  ]

  mid_equal : (p : A) (ns : List A) → All (λ n. n ≡ p) (mid order p ns)
  unfolding mid
  mid_equal p [] = tt
  mid_equal p (n ∷ ns) = elim (Bool-cases (order.beq n p)) [
    | inl h ↦ rw h (ground (arith, h, order.beq_iff n p), mid_equal p ns)
    | inr h ↦ rw h (mid_equal p ns)
  ]

  right_above : (p : A) (ns : List A) → All (λ n. order.lt p n ≡ true) (right order p ns)
  unfolding right
  right_above p [] = tt
  right_above p (n ∷ ns) = elim (Bool-cases (order.lt p n)) [
    | inl h ↦ rw h (h, right_above p ns)
    | inr h ↦ rw h (right_above p ns)
  ]

  left_shorter : (p : A) (ns : List A) → length (left order p ns) ≤ length ns
  unfolding left
  left_shorter p [] = omega arith
  left_shorter p (n ∷ ns) = ground (arith, left_shorter p ns)

  right_shorter : (p : A) (ns : List A) → length (right order p ns) ≤ length ns
  unfolding right
  right_shorter p [] = omega arith
  right_shorter p (n ∷ ns) = ground (arith, right_shorter p ns)

  -- Neither part of a list at its first number has that number.
  head_left : (p : A) (ns : List A) → left order p (p ∷ ns) ≡ left order p ns
  unfolding left
  head_left p ns = rw (order.irreflexive p) refl

  head_right : (p : A) (ns : List A) → right order p (p ∷ ns) ≡ right order p ns
  unfolding right
  head_right p ns = rw (order.irreflexive p) refl

  Sorted-append :
      (xs ys : List A)
      → Sorted xs
      → Sorted ys
      → All (λ x. All (λ y. order.lt y x ≡ false) ys) xs
      → Sorted (xs ++ ys)
  Sorted-append [] ys a b c = b
  Sorted-append (x ∷ xs) ys (a, s) b (c, d) =
      (All-append (λ y. order.lt y x ≡ false) xs ys a c, Sorted-append xs ys s b d)

  equal-Sorted : (p : A) (xs : List A) → All (λ n. n ≡ p) xs → Sorted xs
  equal-Sorted p [] a = tt
  equal-Sorted p (x ∷ xs) (e, a) = (
    All-weaken (λ n. n ≡ p) (λ y. order.lt y x ≡ false) xs (λ y f. rw (f, e) (order.irreflexive p))
        a,
    equal-Sorted p xs a,
  )

  -- What a sort makes of a list.
  pub record Sorts (ns out : List A) : Type 0 where
    pub sorted : Sorted out
    pub same : (x : A) → count x out ≡ count x ns

  All-at_count : (P : A → Type 0) (ns : List A) → All P ns → (x : A) → 1 ≤ count x ns → P x
  All-at_count P [] a x h = absurd (omega arith)
  All-at_count P (n ∷ ns) (p, a) x h = elim (Bool-cases (order.beq n x)) [
    | inl e ↦ subst P (ground (arith, e, order.beq_iff n x)) p
    | inr e ↦ All-at_count P ns a x (rw e at h)
  ]

  All-from_count : (P : A → Type 0) (ns : List A) → ((x : A) → 1 ≤ count x ns → P x) → All P ns
  All-from_count P [] f = tt
  All-from_count P (n ∷ ns) f = (
    f n (let e : order.beq n n ≡ true = ground (arith, order.beq_iff n n) in rw e (omega arith)),
    All-from_count P ns (λ x h. f x (ground arith)),
  )

  -- A property of all numbers is kept by a rearrangement.
  All-Sorts : (P : A → Type 0) (ns out : List A) → Sorts ns out → All P ns → All P out
  All-Sorts P ns out s a =
      All-from_count P out (λ x h. All-at_count P ns a x (let c = s.same x in omega arith))

  joins :
      (p : A) (ns l r : List A)
      → Sorts (left order p ns) l
      → Sorts (right order p ns) r
      → Sorts ns ((l ++ mid order p ns) ++ r)
  joins p ns l r sl sr =
      let m = mid order p ns in
      let below = All-Sorts (λ n. order.lt n p ≡ true) (left order p ns) l sl (left_below p ns) in
      let above = All-Sorts (λ n. order.lt p n ≡ true) (right order p ns) r sr (right_above p ns) in
      let equals = mid_equal p ns in
      let low = Sorted-append l m sl.sorted (equal-Sorted p m equals) (
        All-weaken (λ n. order.lt n p ≡ true) (λ x. All (λ y. order.lt y x ≡ false) m) l
          (λ x h.
            All-weaken (λ n. n ≡ p) (λ y. order.lt y x ≡ false) m (λ y e. rw e (asymmetric x p h))
              equals)
          below) in
      record {
        sorted = Sorted-append (l ++ m) r low sr.sorted (
            All-append (λ x. All (λ y. order.lt y x ≡ false) r) l m
              (All-weaken (λ n. order.lt n p ≡ true) (λ x. All (λ y. order.lt y x ≡ false) r) l
                (λ x h.
                  All-weaken (λ n. order.lt p n ≡ true) (λ y. order.lt y x ≡ false) r
                    (λ y k. asymmetric x y (order.transitive x p y h k)) above)
                below)
              (All-weaken (λ n. n ≡ p) (λ x. All (λ y. order.lt y x ≡ false) r) m
                (λ x e.
                  All-weaken (λ n. order.lt p n ≡ true) (λ y. order.lt y x ≡ false) r
                    (λ y k. asymmetric x y (rw e k)) above)
                equals));
        same = λ x.
            let cl = sl.same x in
            let cr = sr.same x in
            let parts = count_parts x p ns in
            let outer = count-append x (l ++ m) r in let inner = count-append x l m in omega arith;
      }

  -- With fuel for the length of the list the sort has a result, which is in order and has every number
  -- as often as the list.
  pub quick_sort-Sorts :
      (fuel : ℕ) (ns : List A)
      → length ns ≤ fuel
      → (out : List A) × (quick_sort order fuel ns ≡ some out) × Sorts ns out
  unfolding quick_sort
  quick_sort-Sorts fuel [] h = ([], refl, record { sorted = tt; same = λ x. refl })
  quick_sort-Sorts fuel (n ∷ []) h = (n ∷ [], refl, record { sorted = (tt, tt); same = λ x. refl })
  quick_sort-Sorts zero (n ∷ n' ∷ ns) h = absurd (omega arith)
  quick_sort-Sorts (suc fuel) (n ∷ n' ∷ ns) h =
      let all = n ∷ n' ∷ ns in
      let (l, e, sl) =
        quick_sort-Sorts fuel (left order n all)
          (let s = left_shorter n (n' ∷ ns) in rw (head_left n (n' ∷ ns)) (omega arith)) in
      let (r, f, sr) =
        quick_sort-Sorts fuel (right order n all)
          (let s = right_shorter n (n' ∷ ns) in rw (head_right n (n' ∷ ns)) (omega arith)) in
      ((l ++ mid order n all) ++ r, rw (e, f) refl, joins n all l r sl sr)
