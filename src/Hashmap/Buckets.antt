-- ===== src/Hashmap/Buckets.antt =====
-- `ConcurrentMap::Bucket` of src/hashmap/concurrent_map.cpp: a list of pairs that is searched from the
-- front. Each method holds the bucket's lock for its whole body, so it is one function of the list.
use cpp_wtfsc.Base.{List, [], ◌∷◌, Option, none, some, Eq, if◌then◌else◌}

-- `data`, oldest entry first
abbrev pub Bucket {ℓ} : Type ℓ → Type ℓ → Type ℓ
Bucket K V = List (K × V)

module _ {ℓ} {K V : Type ℓ} ⦃key : Eq K⦄ where
  -- `std::find_if` with the test on `x.first`, and `it->second` of what it finds
  unfoldable pub find : Bucket K V → K → Option V
  find [] k = none
  find ((k', v) ∷ rest) k = if key.beq k' k then some v else find rest k

  unfoldable pub get : Bucket K V → K → V → V
  unfolding find
  get b k default_value = elim (find b k) [ none ↦ default_value | some v ↦ v ]

  -- `emplace_back` when the search ends, and `it->second = v` where it stops
  unfoldable pub set : Bucket K V → K → V → Bucket K V
  set [] k v = (k, v) ∷ []
  set ((k', v') ∷ rest) k v = if key.beq k' k then (k', v) ∷ rest else (k', v') ∷ set rest k v

  unfoldable pub erase : Bucket K V → K → Bucket K V
  erase [] k = []
  erase ((k', v') ∷ rest) k = if key.beq k' k then rest else (k', v') ∷ erase rest k
