-- ===== src/MemoryPool/Vector/Contents.antt =====
-- What src/memory_pool/Vector.h keeps: the objects from `first_` to `last_`, and raw cells behind.
use cpp_wtfsc.Base.{
  ℕ, zero, suc, ◌+◌, ◌^◌, ◌<◌, ltb, true, ◌≡◌, refl, sym, ap, ◌∙◌, List, [], ◌∷◌, ◌++◌, Option,
  none, some, length, replicate, arith, append_assoc, length-append, length-replicate,
}
use cpp_wtfsc.Base.Arrays.{get_elem?-append_middle, set-append_middle}
use cpp_wtfsc.MemoryPool.Vector.{
  Vector, read, construct_cell, destroy_cell, copy_cells, destroy_cells, construct_from,
}

-- The cells that hold these objects.
abbrev pub live : {A : Type 0} → List A → List (Option A)
live [] = []
live (x ∷ xs) = some x ∷ live xs

next_index_lem : (i : ℕ) → i + 1 < 2 ^ 31 → ltb (i + 1) (2 ^ 31) ≡ true
next_index_lem i h = ground arith

module _ {A : Type 0} where
  pub record Holds (v : Vector A) (xs : List A) : Type 0 where
    pub free : ℕ
    pub cells_are : v.cells ≡ live xs ++ replicate free none
    pub last_is : v.last ≡ length xs

  pub length-live : (xs : List A) → length (live xs) ≡ length xs
  length-live [] = refl
  length-live (x ∷ xs) = ap suc (length-live xs)

  pub live-append : (xs ys : List A) → live (xs ++ ys) ≡ live xs ++ live ys
  live-append [] ys = refl
  live-append (x ∷ xs) ys = ap (◌∷◌ (some x)) (live-append xs ys)

  pub read_middle :
      (pre : List (Option A)) (x : A) (post : List (Option A)) (i : ℕ)
      → length pre ≡ i
      → read (pre ++ some x ∷ post) i ≡ some x
  unfolding read
  read_middle pre x post i e = rw (sym e, get_elem?-append_middle pre (some x) post) refl

  pub construct_middle :
      (pre : List (Option A)) (post : List (Option A)) (i : ℕ) (x : A)
      → length pre ≡ i
      → construct_cell (pre ++ none ∷ post) i x ≡ some (pre ++ some x ∷ post)
  unfolding construct_cell
  construct_middle pre post i x e = rw (sym e) (
      ground
        (arith, get_elem?-append_middle pre none post, set-append_middle pre none (some x) post))

  pub destroy_middle :
      (pre : List (Option A)) (x : A) (post : List (Option A)) (i : ℕ)
      → length pre ≡ i
      → destroy_cell (pre ++ some x ∷ post) i ≡ some (pre ++ none ∷ post)
  unfolding destroy_cell
  destroy_middle pre x post i e =
      rw (read_middle pre x post i e)
        (ap some (rw (sym e) (set-append_middle pre (some x) none post)))

  abbrev snoc : List (Option A) → Option A → List (Option A)
  snoc xs x = xs ++ (x ∷ [])

  snoc-length :
      (xs : List (Option A)) (x : Option A) (i : ℕ) → length xs ≡ i → length (snoc xs x) ≡ i + 1
  snoc-length xs x i e = length-append xs (x ∷ []) ∙ ground arith

  -- A loop over raw cells at the front of `post` makes them live copies.
  pub copy_cells_lem :
      (xs : List A) (i : ℕ) (p q post rest : List (Option A))
      → i + length xs < 2 ^ 31
      → length p ≡ i
      → length q ≡ i
      → copy_cells
          (length xs)
          i
          (p ++ (live xs ++ post))
          (q ++ (replicate (length xs) none ++ rest))
        ≡ some (q ++ (live xs ++ rest))
  unfolding copy_cells
  copy_cells_lem [] i p q post rest small e f = refl
  copy_cells_lem (x ∷ xs) i p q post rest small e f =
      rw
        (
          read_middle p x (live xs ++ post) i e,
          construct_middle q (replicate (length xs) none ++ rest) i x f,
          next_index_lem i (omega arith),
          sym (append_assoc p (some x ∷ []) (live xs ++ post)),
          sym (append_assoc q (some x ∷ []) (replicate (length xs) none ++ rest)),
          sym (append_assoc q (some x ∷ []) (live xs ++ rest)),
        )
        (copy_cells_lem xs (i + 1) (snoc p (some x)) (snoc q (some x)) post rest (omega arith)
          (snoc-length p (some x) i e) (snoc-length q (some x) i f))

  pub destroy_cells_lem :
      (xs : List A) (i : ℕ) (p post : List (Option A))
      → length p ≡ i
      → destroy_cells (length xs) i (p ++ (live xs ++ post))
        ≡ some (p ++ (replicate (length xs) none ++ post))
  unfolding destroy_cells
  destroy_cells_lem [] i p post e = refl
  destroy_cells_lem (x ∷ xs) i p post e =
      rw
        (
          destroy_middle p x (live xs ++ post) i e,
          sym (append_assoc p (none ∷ []) (live xs ++ post)),
          sym (append_assoc p (none ∷ []) (replicate (length xs) none ++ post)),
        )
        (destroy_cells_lem xs (i + 1) (snoc p none) post (snoc-length p none i e))

  pub construct_from_lem :
      (n i : ℕ) (x : A) (p rest : List (Option A))
      → i + n < 2 ^ 31
      → length p ≡ i
      → construct_from n i x (p ++ (replicate n none ++ rest))
        ≡ some (p ++ (live (replicate n x) ++ rest))
  unfolding construct_from
  construct_from_lem zero i x p rest small e = refl
  construct_from_lem (suc n) i x p rest small e =
      rw
        (
          construct_middle p (replicate n none ++ rest) i x e,
          next_index_lem i (omega arith),
          sym (append_assoc p (some x ∷ []) (replicate n none ++ rest)),
          sym (append_assoc p (some x ∷ []) (live (replicate n x) ++ rest)),
        )
        (construct_from_lem n (i + 1) x (snoc p (some x)) rest (omega arith)
          (snoc-length p (some x) i e))

  pub length-cells :
      (xs : List A) (free : ℕ) → length (live xs ++ replicate free none) ≡ length xs + free
  length-cells xs free =
      length-append (live xs) (replicate free none)
      ∙ ground (arith, length-live xs, length-replicate {A = Option A} free none)
