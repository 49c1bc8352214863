-- ===== src/Hashmap/Reference.antt =====
-- What a client asks of a map, and the map that it promises: a function from keys to values.
use cpp_wtfsc.Base.{List, [], ◌∷◌, Option, none, some, Eq, if◌then◌else◌}

pub data Call {ℓ} (K V : Type ℓ) : Type ℓ where
  get : K → V → Call K V
  set : K → V → Call K V
  erase : K → Call K V

abbrev pub or_default {ℓ} : {V : Type ℓ} → Option V → V → V
or_default none d = d
or_default (some v) d = v

module _ {ℓ} {K V : Type ℓ} ⦃key : Eq K⦄ where
  abbrev pub update : (K → Option V) → K → Option V → K → Option V
  update f k v q = if key.beq k q then v else f q

  -- The results of the `get` calls, in order.
  unfoldable pub run : (K → Option V) → List (Call K V) → List V
  run f [] = []
  run f (get k d ∷ calls) = or_default (f k) d ∷ run f calls
  run f (set k v ∷ calls) = run (update f k (some v)) calls
  run f (erase k ∷ calls) = run (update f k none) calls
