-- ===== src/Hashmap/Invariant.antt =====
-- The lists of one bucket: each key at most once, and what a search sees after each method.
use cpp_wtfsc.Base.{◌≡◌, refl, [], ◌∷◌, none, some, arith, Eq, Bool-cases, inl, inr}
use cpp_wtfsc.Hashmap.Buckets.{Bucket, find, set, erase}
use cpp_wtfsc.Hashmap.Reference.{update}

module _ {ℓ} {K V : Type ℓ} ⦃key : Eq K⦄ where
  -- No key stands in two entries.
  abbrev pub IsDistinct : Bucket K V → Type ℓ
  IsDistinct [] = Unit
  IsDistinct ((k, v) ∷ rest) = (find rest k ≡ none) × IsDistinct rest

  pub find-set :
      (b : Bucket K V) (k : K) (v : V) (q : K) → find (set b k v) q ≡ update (find b) k (some v) q
  unfolding find set
  find-set [] k v q = refl
  find-set ((k', v') ∷ rest) k v q =
      ground (arith, find-set rest k v q, key.beq_iff k' k, key.beq_iff k q, key.beq_iff k' q)

  pub set-IsDistinct : (b : Bucket K V) (k : K) (v : V) → IsDistinct b → IsDistinct (set b k v)
  unfolding find set
  set-IsDistinct [] k v h = (refl, tt)
  set-IsDistinct ((k', v') ∷ rest) k v h = elim (Bool-cases (key.beq k' k)) [
    | inl e ↦ rw e h
    | inr e ↦ rw e (
      ground (arith, find-set rest k v k', key.beq_iff k' k, key.beq_iff k k'),
      set-IsDistinct rest k v h.1,
    )
  ]

  pub find-erase :
      (b : Bucket K V) (k q : K) → IsDistinct b → find (erase b k) q ≡ update (find b) k none q
  unfolding find erase
  find-erase [] k q h = ground arith
  find-erase ((k', v') ∷ rest) k q h =
      ground (arith, find-erase rest k q h.1, key.beq_iff k' k, key.beq_iff k q, key.beq_iff k' q)

  pub erase-IsDistinct : (b : Bucket K V) (k : K) → IsDistinct b → IsDistinct (erase b k)
  unfolding find erase
  erase-IsDistinct [] k h = tt
  erase-IsDistinct ((k', v') ∷ rest) k h = elim (Bool-cases (key.beq k' k)) [
    | inl e ↦ rw e h.1
    | inr e ↦ rw e (ground (arith, find-erase rest k k' h.1), erase-IsDistinct rest k h.1)
  ]
