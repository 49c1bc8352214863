-- ===== src/Matrix/Rows/Splice.antt =====
-- A change of one row, in the list of rows and in an array of all their entries.
use native.Mathlib.Nat.{zero-add, suc-add}
use cpp_wtfsc.Base.{
  ℕ, zero, suc, ◌+◌, ◌≤◌, ◌<◌, ◌≡◌, refl, ap, List, [], ◌∷◌, ◌++◌, length, set, arith,
  length-append, map,
}
use cpp_wtfsc.Matrix.Result.{ok}
use cpp_wtfsc.Matrix.Scalar.{Scalar}
use cpp_wtfsc.Matrix.Storage.{insert_at, remove_at, vector_insert, vector_erase, vector_assign}
use mathlib.Core.List.{map-append}
use cpp_wtfsc.Matrix.Rows.{Row, IsRow, entries, offsets}
use cpp_wtfsc.Matrix.Rows.Layout.{columns}

module _ {T : Type 0} where
  pub entries_nil :
      (above : List (Row T)) (r : Row T) (below : List (Row T))
      → entries (above ++ r ∷ below) ≡ []
      → r ≡ []
  entries_nil [] [] below e = refl
  entries_nil [] (x ∷ r) below e = absurd (ground arith)
  entries_nil ([] ∷ above) r below e = entries_nil above r below e
  entries_nil ((x ∷ y) ∷ above) r below e = absurd (ground arith)

  -- A single entry among rows that are all empty.
  pub entries_only :
      (above : List (Row T)) (r : Row T) (below : List (Row T)) (e : ℕ × T)
      → entries (above ++ r ∷ below) ≡ []
      → entries (above ++ (e ∷ []) ∷ below) ≡ e ∷ []
  entries_only [] [] below e h = ap (◌∷◌ e) h
  entries_only [] (x ∷ r) below e h = absurd (ground arith)
  entries_only ([] ∷ above) r below e h = entries_only above r below e h
  entries_only ((x ∷ y) ∷ above) r below e h = absurd (ground arith)

module _ {T : Type 0} (scalar : Scalar T) where
  abbrev pub AllRows : ℕ → ℕ → List (Row T) → Type 0
  AllRows lo hi [] = Unit
  AllRows lo hi (r ∷ rs) = IsRow scalar lo hi r × AllRows lo hi rs

  module _ (lo hi : ℕ) where
    pub AllRows-middle :
        (above : List (Row T)) (r : Row T) (below : List (Row T))
        → AllRows lo hi (above ++ r ∷ below)
        → IsRow scalar lo hi r
    AllRows-middle [] r below v = v.0
    AllRows-middle (x ∷ above) r below v = AllRows-middle above r below v.1

    pub AllRows-replace :
        (above : List (Row T)) (r r' : Row T) (below : List (Row T))
        → AllRows lo hi (above ++ r ∷ below)
        → IsRow scalar lo hi r'
        → AllRows lo hi (above ++ r' ∷ below)
    AllRows-replace [] r r' below v w = (w, v.1)
    AllRows-replace (x ∷ above) r r' below v w = (v.0, AllRows-replace above r r' below v.1 w)

module _ {A : Type 0} where
  insert_at-behind :
      (pre ys : List A) (k : ℕ) (e : A)
      → insert_at (pre ++ ys) (length pre + k) e ≡ pre ++ insert_at ys k e
  insert_at-behind [] ys k e = rw zero-add
  insert_at-behind (x ∷ pre) ys k e = rw suc-add (ap (◌∷◌ x) (insert_at-behind pre ys k e))

  remove_at-behind :
      (pre ys : List A) (k : ℕ) → remove_at (pre ++ ys) (length pre + k) ≡ pre ++ remove_at ys k
  remove_at-behind [] ys k = rw zero-add
  remove_at-behind (x ∷ pre) ys k = rw suc-add (ap (◌∷◌ x) (remove_at-behind pre ys k))

  set-behind :
      (pre ys : List A) (k : ℕ) (e : A) → set (pre ++ ys) (length pre + k) e ≡ pre ++ set ys k e
  set-behind [] ys k e = rw zero-add
  set-behind (x ∷ pre) ys k e = rw suc-add (ap (◌∷◌ x) (set-behind pre ys k e))

  insert_at-before :
      (mid post : List A) (k : ℕ) (e : A)
      → k ≤ length mid
      → insert_at (mid ++ post) k e ≡ insert_at mid k e ++ post
  insert_at-before mid post zero e h = refl
  insert_at-before [] post (suc k) e h = absurd (omega arith)
  insert_at-before (x ∷ mid) post (suc k) e h =
      ap (◌∷◌ x) (insert_at-before mid post k e (omega arith))

  remove_at-before :
      (mid post : List A) (k : ℕ)
      → k < length mid
      → remove_at (mid ++ post) k ≡ remove_at mid k ++ post
  remove_at-before [] post k h = absurd (omega arith)
  remove_at-before (x ∷ mid) post zero h = refl
  remove_at-before (x ∷ mid) post (suc k) h = ap (◌∷◌ x) (remove_at-before mid post k (omega arith))

  set-before :
      (mid post : List A) (k : ℕ) (e : A)
      → k < length mid
      → set (mid ++ post) k e ≡ set mid k e ++ post
  set-before [] post k e h = absurd (omega arith)
  set-before (x ∷ mid) post zero e h = refl
  set-before (x ∷ mid) post (suc k) e h = ap (◌∷◌ x) (set-before mid post k e (omega arith))

  pub length-insert_at :
      (xs : List A) (k : ℕ) (e : A) → k ≤ length xs → length (insert_at xs k e) ≡ length xs + 1
  length-insert_at xs zero e h = omega arith
  length-insert_at [] (suc k) e h = absurd (omega arith)
  length-insert_at (x ∷ xs) (suc k) e h = omega (arith, length-insert_at xs k e)

  pub length-remove_at :
      (xs : List A) (k : ℕ) → k < length xs → length (remove_at xs k) + 1 ≡ length xs
  length-remove_at [] k h = absurd (omega arith)
  length-remove_at (x ∷ xs) zero h = omega arith
  length-remove_at (x ∷ xs) (suc k) h = omega (arith, length-remove_at xs k)

module _ {A B : Type 0} (f : A → B) where
  map-insert_at :
      (xs : List A) (k : ℕ) (e : A) → map f (insert_at xs k e) ≡ insert_at (map f xs) k (f e)
  map-insert_at xs zero e = refl
  map-insert_at [] (suc k) e = refl
  map-insert_at (x ∷ xs) (suc k) e = ap (◌∷◌ (f x)) (map-insert_at xs k e)

  map-remove_at : (xs : List A) (k : ℕ) → map f (remove_at xs k) ≡ remove_at (map f xs) k
  map-remove_at [] k = refl
  map-remove_at (x ∷ xs) zero = refl
  map-remove_at (x ∷ xs) (suc k) = ap (◌∷◌ (f x)) (map-remove_at xs k)

  map-set : (xs : List A) (k : ℕ) (e : A) → map f (set xs k e) ≡ set (map f xs) k (f e)
  map-set [] k e = refl
  map-set (x ∷ xs) zero e = refl
  map-set (x ∷ xs) (suc k) e = ap (◌∷◌ (f x)) (map-set xs k e)

  length-map : (xs : List A) → length (map f xs) ≡ length xs
  length-map [] = refl
  length-map (x ∷ xs) = ap suc (length-map xs)

  module _ (pre mid post : List A) (k : ℕ) where
    inside : length (map f (pre ++ (mid ++ post))) ≡ length pre + (length mid + length post)
    inside = rw (length-map, length-append, length-append)

    -- An insertion, an erasure and an assignment at offset `k` of the middle part.
    pub vector_insert_lem :
        (e : A)
        → k ≤ length mid
        → vector_insert (map f (pre ++ (mid ++ post))) (length pre + k) (f e)
          ≡ ok (map f (pre ++ (insert_at mid k e ++ post)))
    unfolding vector_insert
    vector_insert_lem e h =
        rw
          (
            ← insert_at-before mid post k e h,
            ← insert_at-behind pre (mid ++ post) k e,
            map-insert_at,
          )
          (ground (arith, inside))

    pub vector_erase_lem :
        k < length mid
        → vector_erase (map f (pre ++ (mid ++ post))) (length pre + k)
          ≡ ok (map f (pre ++ (remove_at mid k ++ post)))
    unfolding vector_erase
    vector_erase_lem h =
        rw (← remove_at-before mid post k h, ← remove_at-behind pre (mid ++ post) k, map-remove_at)
          (ground (arith, inside))

    pub vector_assign_lem :
        (e : A)
        → k < length mid
        → vector_assign (map f (pre ++ (mid ++ post))) (length pre + k) (f e)
          ≡ ok (map f (pre ++ (set mid k e ++ post)))
    unfolding vector_assign
    vector_assign_lem e h =
        rw (← set-before mid post k e h, ← set-behind pre (mid ++ post) k e, map-set)
          (ground (arith, inside))

module _ {T : Type 0} where
  -- A row in place of another that has the same columns, or the same length.
  pub columns_same :
      (above : List (Row T)) (r r' : Row T) (below : List (Row T))
      → columns r ≡ columns r'
      → columns (entries (above ++ r ∷ below)) ≡ columns (entries (above ++ r' ∷ below))
  columns_same [] r r' below e = rw (map-append, map-append, e)
  columns_same (x ∷ above) r r' below e =
      rw (map-append, map-append, columns_same above r r' below e)

  pub offsets_same :
      (b : ℕ) (above : List (Row T)) (r r' : Row T) (below : List (Row T))
      → length r ≡ length r'
      → offsets b (above ++ r ∷ below) ≡ offsets b (above ++ r' ∷ below)
  offsets_same b [] r r' below e = rw e
  offsets_same b (x ∷ above) r r' below e =
      ap (◌∷◌ b) (offsets_same (b + length x) above r r' below e)
