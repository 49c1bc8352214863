-- ===== src/Base/Spans.antt =====
-- Parts of a list element by element, and a list with a part written over.
use Prim.Native.Nat.{ℕ, zero, suc, ◌+◌, ◌-◌, ◌≤◌}
use mathlib.Core.Path.{◌≡◌, refl, ap, ap₂}
use mathlib.Core.Logic.{◌⊎◌}
use mathlib.Core.List.{List, [], ◌∷◌, ◌++◌}
use mathlib.Core.Option.{none, some}
use native.Mathlib.Omega.{arith}
use cpp_wtfsc.Base.Bools.{ltb, if◌then◌else◌}
use cpp_wtfsc.Base.Lists.{
  length, get_elem?, take, drop, replicate, length-append, length-replicate, length-take,
  length-drop, get_elem?-append, get_elem?-replicate,
}

module _ {ℓ} {A : Type ℓ} where
  pub get_elem?-take :
      (n : ℕ) (xs : List A) (i : ℕ)
      → get_elem? (take n xs) i ≡ (if ltb i n then get_elem? xs i else none)
  get_elem?-take zero xs i = ground arith
  get_elem?-take (suc n) [] i = ground arith
  get_elem?-take (suc n) (x ∷ xs) zero = ground arith
  get_elem?-take (suc n) (x ∷ xs) (suc i) = ground (arith, get_elem?-take n xs i)

  pub get_elem?-drop :
      (n : ℕ) (xs : List A) (i : ℕ) → get_elem? (drop n xs) i ≡ get_elem? xs (n + i)
  get_elem?-drop zero xs i = ap (get_elem? xs) (omega arith)
  get_elem?-drop (suc n) [] i = refl
  get_elem?-drop (suc n) (x ∷ xs) i =
      let e : suc n + i ≡ suc (n + i) = omega arith in rw e (get_elem?-drop n xs i)

  pub get_elem?_beyond : (xs : List A) (i : ℕ) → length xs ≤ i → get_elem? xs i ≡ none
  get_elem?_beyond [] i h = refl
  get_elem?_beyond (x ∷ xs) zero h = absurd (omega arith)
  get_elem?_beyond (x ∷ xs) (suc i) h = get_elem?_beyond xs i (omega arith)

  -- Lists that answer alike at every index are equal.
  pub lists_agree : (xs ys : List A) → ((i : ℕ) → get_elem? xs i ≡ get_elem? ys i) → xs ≡ ys
  lists_agree [] [] h = refl
  lists_agree [] (y ∷ ys) h = absurd (let e = h 0 in ground arith)
  lists_agree (x ∷ xs) [] h = absurd (let e = h 0 in ground arith)
  lists_agree (x ∷ xs) (y ∷ ys) h =
      ap₂ (λ z zs. z ∷ zs) (let e = h 0 in ground arith) (lists_agree xs ys (λ i. h (suc i)))

module _ {A : Type 0} where
  -- A list with some elements written at an offset, and padded before them where it is too short.
  abbrev pub patch : A → List A → ℕ → List A → List A
  patch pad xs offset ys =
      take offset xs ++ (replicate (offset - length xs) pad ++ (ys ++ drop (offset + length ys) xs))

  get_elem?-patch :
      (pad : A) (xs : List A) (offset : ℕ) (ys : List A) (i : ℕ)
      → get_elem? (patch pad xs offset ys) i ≡ (
          if ltb i offset
          then (if ltb i (length xs) then get_elem? xs i else some pad)
          else if ltb i (offset + length ys)
          then get_elem? ys (i - offset)
          else get_elem? xs i)
  get_elem?-patch pad xs offset ys i =
      let gap = replicate (offset - length xs) pad in
      let rest = drop (offset + length ys) xs in
      let k = i - length (take offset xs) in
      let back : offset + length ys + (k - length gap - length ys)
          ≡ (if ltb i (offset + length ys) then offset + length ys else i) =
        ground (arith, length-take offset xs, length-replicate (offset - length xs) pad) in
      ground (
        arith,
        back,
        length-take offset xs,
        length-replicate (offset - length xs) pad,
        get_elem?-append (take offset xs) (gap ++ (ys ++ rest)) i,
        get_elem?-take offset xs i,
        get_elem?-append gap (ys ++ rest) k,
        get_elem?-replicate (offset - length xs) k pad,
        get_elem?-append ys rest (k - length gap),
        get_elem?-drop (offset + length ys) xs (k - length gap - length ys),
      )

  pub length-patch :
      (pad : A) (xs : List A) (offset : ℕ) (ys : List A)
      → length (patch pad xs offset ys)
        ≡ (if ltb (length xs) (offset + length ys) then offset + length ys else length xs)
  length-patch pad xs offset ys =
      let gap = replicate (offset - length xs) pad in
      let rest = drop (offset + length ys) xs in
      ground (
        arith,
        length-append (take offset xs) (gap ++ (ys ++ rest)),
        length-append gap (ys ++ rest),
        length-append ys rest,
        length-take offset xs,
        length-replicate (offset - length xs) pad,
        length-drop (offset + length ys) xs,
      )

  -- What was written is read back.
  pub span-patch :
      (pad : A) (xs : List A) (offset : ℕ) (ys : List A) (n : ℕ)
      → length ys ≡ n
      → take n (drop offset (patch pad xs offset ys)) ≡ ys
  span-patch pad xs offset ys n e = lists_agree _ _ (λ i.
      let same : offset + i - offset ≡ i = omega arith in
      ground (
        arith,
        get_elem?-take n (drop offset (patch pad xs offset ys)) i,
        get_elem?-drop offset (patch pad xs offset ys) i,
        get_elem?-patch pad xs offset ys (offset + i),
        get_elem?_beyond ys i,
        same,
      ))

  -- A part that the write does not touch is as it was.
  pub span-patch_other :
      (pad : A) (xs : List A) (offset : ℕ) (ys : List A) (from n : ℕ)
      → from + n ≤ length xs
      → (from + n ≤ offset) ⊎ (offset + length ys ≤ from)
      → take n (drop from (patch pad xs offset ys)) ≡ take n (drop from xs)
  span-patch_other pad xs offset ys from n h apart = lists_agree _ _ (λ i. ground (
    arith,
    get_elem?-take n (drop from (patch pad xs offset ys)) i,
    get_elem?-take n (drop from xs) i,
    get_elem?-drop from (patch pad xs offset ys) i,
    get_elem?-drop from xs i,
    get_elem?-patch pad xs offset ys (from + i),
  ))
