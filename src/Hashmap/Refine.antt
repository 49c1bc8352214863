-- ===== src/Hashmap/Refine.antt =====
-- The map behind a vector of buckets: reads, writes and whole sequences of calls.
use cpp_wtfsc.Base
use cpp_wtfsc.Base.{
  ℕ, ◌+◌, ◌%◌, ◌<◌, ◌≡◌, refl, ap, sym, ◌∙◌, Bool, true, false, List, [], ◌∷◌, Option, none, some,
  arith, Eq, if◌then◌else◌, Bool-cases, inl, inr, ◌==◌, get_elem?, length, replicate, ◌>>=◌,
  get_elem?-set, get_elem?_in_range, length-set, get_elem?-replicate, get_elem?-replicate_inv,
  length-replicate, fun_ext,
}
use cpp_wtfsc.Hashmap.{ConcurrentMap, init, get_bucket, get, set, erase, run}
use cpp_wtfsc.Hashmap.Buckets
use cpp_wtfsc.Hashmap.Buckets.{Bucket, find}
use cpp_wtfsc.Hashmap.Invariant.{IsDistinct, find-set, set-IsDistinct, find-erase, erase-IsDistinct}
use cpp_wtfsc.Hashmap.Reference
use cpp_wtfsc.Hashmap.Reference.{Call, update, or_default}

module _ {K V : Type 0} ⦃key : Eq K⦄ (hasher : K → ℕ) where
  -- There is a bucket, no bucket holds a key twice, and an entry lies where its key is looked up.
  pub record IsValid (m : ConcurrentMap K V) : Type 0 where
    pub some_bucket : 0 < length m.buckets
    pub distinct : (i : ℕ) (b : Bucket K V) → get_elem? m.buckets i ≡ some b → IsDistinct b
    pub placed :
        (i : ℕ) (b : Bucket K V) (k : K) (v : V)
        → get_elem? m.buckets i ≡ some b
        → find b k ≡ some v
        → hasher k % length m.buckets ≡ i

  -- The map that a client sees.
  unfoldable pub view : ConcurrentMap K V → K → Option V
  view m q = get_elem? m.buckets (hasher q % length m.buckets) >>= λ b. find b q

  located :
      (m : ConcurrentMap K V) (k : K)
      → 0 < length m.buckets
      → (b : Bucket K V) × (get_elem? m.buckets (hasher k % length m.buckets) ≡ some b)
        × (get_bucket hasher m k ≡ some (hasher k % length m.buckets, b))
        × (view m k ≡ find b k)
  unfolding get_bucket view
  located m k h =
      let (b, e) = get_elem?_in_range m.buckets (hasher k % length m.buckets) (omega arith) in
      (b, e, rw e, rw e)

  -- `get` is defined, and returns what the map holds, or the default.
  pub get_lem :
      (m : ConcurrentMap K V) (k : K) (d : V)
      → IsValid m
      → get hasher m k d ≡ some (or_default (view m k) d)
  unfolding get Buckets.get
  get_lem m k d v =
      let (b, here, e, seen) = located m k v.some_bucket in rw (e, seen) (ground arith)

  module _ (m : ConcurrentMap K V) (k : K) (v : Option V) (b c : Bucket K V) (valid : IsValid m)
      (here : get_elem? m.buckets (hasher k % length m.buckets) ≡ some b) (distinct : IsDistinct c)
      (seen : (q : K) → find c q ≡ update (find b) k v q) where
    -- Both writes replace the bucket of `k` by one that differs at `k` only.
    abbrev written : ConcurrentMap K V
    written = record m { buckets = Base.set m.buckets (hasher k % length m.buckets) c }

    after :
        (j : ℕ)
        → get_elem? written.buckets j
          ≡ (if hasher k % length m.buckets == j then some c else get_elem? m.buckets j)
    after j =
        get_elem?-set m.buckets (hasher k % length m.buckets) j c
          (let h = valid.some_bucket in omega arith)

    written-IsValid : IsValid written
    written-IsValid = record {
      some_bucket = let h = valid.some_bucket in rw length-set h;
      distinct = λ i b' e. ground (arith, after i, valid.distinct i b');
      placed = λ i b' q w e f. rw length-set (
          ground (
            arith,
            after i,
            seen q,
            key.beq_iff k q,
            valid.placed i b' q w,
            valid.placed i b q w,
            ap (λ (x : K). hasher x % length m.buckets),
          ));
    }

    view-written : (q : K) → view written q ≡ update (view m) k v q
    unfolding view
    view-written q = rw length-set (
        ground (
          arith,
          after (hasher q % length m.buckets),
          here,
          seen q,
          key.beq_iff k q,
          ap (λ (x : K). hasher x % length m.buckets),
        ))

  -- What a write `r` at `k` has to do: be defined, keep the invariant, and change the map at `k` only.
  abbrev pub Writes : ConcurrentMap K V → K → Option V → Option (ConcurrentMap K V) → Type 0
  Writes m k v r =
      (m' : ConcurrentMap K V) × (r ≡ some m')
      × IsValid m'
      × (length m'.buckets ≡ length m.buckets)
      × ((q : K) → view m' q ≡ update (view m) k v q)

  -- On a valid map `set` is defined, keeps the invariant, stores the value under its key, and leaves
  -- every other key as it was.
  pub set-Writes :
      (m : ConcurrentMap K V) (k : K) (v : V) → IsValid m → Writes m k (some v) (set hasher m k v)
  unfolding set
  set-Writes m k v valid =
      let (b, here, e, _) = located m k valid.some_bucket in
      let d = set-IsDistinct b k v (valid.distinct _ b here) in
      let seen = find-set b k v in
      (
        written m k (some v) b (Buckets.set b k v) valid here d seen,
        rw e,
        written-IsValid m k (some v) b (Buckets.set b k v) valid here d seen,
        length-set m.buckets _ _,
        view-written m k (some v) b (Buckets.set b k v) valid here d seen,
      )

  -- On a valid map `erase` is defined, keeps the invariant, removes the key whether or not it is
  -- there, and leaves every other key as it was.
  erase-Writes : (m : ConcurrentMap K V) (k : K) → IsValid m → Writes m k none (erase hasher m k)
  unfolding erase
  erase-Writes m k valid =
      let (b, here, e, _) = located m k valid.some_bucket in
      let old = valid.distinct _ b here in
      let d = erase-IsDistinct b k old in
      let seen = λ (q : K). find-erase b k q old in
      (
        written m k none b (Buckets.erase b k) valid here d seen,
        rw e,
        written-IsValid m k none b (Buckets.erase b k) valid here d seen,
        length-set m.buckets _ _,
        view-written m k none b (Buckets.erase b k) valid here d seen,
      )

  -- A map built with at least one bucket is valid and holds nothing.
  pub init-IsValid : (n : ℕ) → 0 < n → IsValid (init n) × ((q : K) → view (init n) q ≡ none)
  unfolding init view find
  init-IsValid n h = (
    record {
      some_bucket = rw length-replicate h;
      distinct = λ i b e. rw (get_elem?-replicate_inv n i [] b e) tt;
      placed = λ i b k v e f. absurd (grind (arith, get_elem?-replicate_inv n i [] b));
    },
    λ q.
        rw (
          length-replicate,
          get_elem?-replicate {A = Bucket K V} n (hasher q % n) [] (omega arith),
        ),
  )

  -- A valid map answers every sequence of calls as the function that it shows does.
  pub run_refines :
      (calls : List (Call K V)) (m : ConcurrentMap K V)
      → IsValid m
      → run hasher m calls ≡ some (Reference.run (view m) calls)
  unfolding run Reference.run
  run_refines [] m valid = refl
  run_refines (Call.get k d ∷ calls) m valid = rw (get_lem m k d valid, run_refines calls m valid)
  run_refines (Call.set k v ∷ calls) m valid =
      let (m', e, valid', _, seen) = set-Writes m k v valid in
      rw (e, run_refines calls m' valid', fun_ext seen)
  run_refines (Call.erase k ∷ calls) m valid =
      let (m', e, valid', _, seen) = erase-Writes m k valid in
      rw (e, run_refines calls m' valid', fun_ext seen)
