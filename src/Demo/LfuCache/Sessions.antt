-- ===== src/Demo/LfuCache/Sessions.antt =====
-- Sequences of calls of `get` and `put` of src/demo/lfu.cpp on a new cache.
use mathlib.Core.Path.{subst}
use cpp_wtfsc.Base.{
  ℕ, ◌+◌, ◌^◌, ◌≡◌, ◌<◌, ◌≤◌, Bool, false, refl, ap, ◌∙◌, Bool-cases, inl, inr, List, [], ◌∷◌,
  Option, none, some, ◌>>=◌, length, ◌==◌, arith,
}
use cpp_wtfsc.Demo.LfuCache.{Node, Cache, init, get, put}
use cpp_wtfsc.Demo.LfuCache.Entries.{
  entry, Distinct, victim, entry-without, least, length-without, last-only,
}
use cpp_wtfsc.Demo.LfuCache.Represents.{Rep}
use cpp_wtfsc.Demo.LfuCache.Inserts.{evict-Rep}
use cpp_wtfsc.Demo.LfuCache.Refine.{
  Entries, Raises, without_victim, ref_get, ref_put, ref_room, get_entry, put_entry, Same,
  init-Same, get-Same, put-Same,
}

pub data Call (V : Type 0) : Type 0 where
  get_call : ℕ → Call V
  put_call : ℕ → V → Call V

module _ {V : Type 0} (minus_one : V) where
  abbrev pub ref_run : ℕ → Entries minus_one → List (Call V) → List V × Entries minus_one
  ref_run capacity e [] = ([], e)
  ref_run capacity e (get_call key ∷ calls) =
      let (val, e') = ref_get minus_one e key in
      let (vals, e'') = ref_run capacity e' calls in (val ∷ vals, e'')
  ref_run capacity e (put_call key val ∷ calls) =
      ref_run capacity (ref_put minus_one capacity e key val) calls

  module _ {c : Cache V} {es : List (Node V)} (v : Rep c es) (room : 0 < c.capacity)
      (within : length es ≤ c.capacity) where
    length-ref_room : length (ref_room minus_one c.capacity es) < c.capacity
    length-ref_room = elim (Bool-cases (length es == c.capacity)) [
      | inr q ↦ rw q (ground (arith, q, within))
      | inl q ↦
          let (n, e, made, ran, rep, same, next) =
            evict-Rep v (λ z. absurd (ground (arith, q, z, room))) in
          let (there, freq, cut) = last-only es (least es) n v.distinct e in
          rw (q, e) (ground (arith, length-without es n.key n there, within, room))
    ]

    get_within :
        (key : ℕ) (o : Option (Node V))
        → entry es key ≡ o
        → length (get_entry minus_one c.fresh es key o).1.1 ≤ c.capacity
    get_within key none e = within
    get_within key (some n) e = omega (arith, length-without es key n e, within)

    put_within :
        (key : ℕ) (val : V) (o : Option (Node V))
        → entry es key ≡ o
        → length (put_entry minus_one c.capacity c.fresh es key val o).1 ≤ c.capacity
    put_within key val none e = omega (arith, length-ref_room)
    put_within key val (some n) e = omega (arith, length-without es key n e, within)

  -- No frequency is above a bound.
  abbrev pub BoundedBy : ℕ → List (Node V) → Type 0
  BoundedBy k es = (key : ℕ) (n : Node V) → entry es key ≡ some n → n.freq ≤ k

  -- A call raises the frequencies by one at most.
  module _ (k : ℕ) (es : List (Node V)) (b : BoundedBy k es) (d : Distinct es) where
    get_freqs :
        (fresh key : ℕ) (o : Option (Node V))
        → entry es key ≡ o
        → BoundedBy (k + 1) (get_entry minus_one fresh es key o).1.1
    get_freqs fresh key none e = λ j m f. omega (arith, b j m f)
    get_freqs fresh key (some n) e =
        λ j m f. ground (arith, f, entry-without es key j d, b key n e, b j m)

    without_freqs : (o : Option (Node V)) → BoundedBy k (without_victim minus_one es o)
    without_freqs none = b
    without_freqs (some n) = λ j m f. ground (arith, f, entry-without es n.key j d, b j m)

    room_freqs : (capacity : ℕ) → BoundedBy k (ref_room minus_one capacity es)
    room_freqs capacity = elim (Bool-cases (length es == capacity)) [
      | inl q ↦ rw q (without_freqs (victim es))
      | inr q ↦ rw q b
    ]

    put_freqs :
        (capacity fresh key : ℕ) (val : V) (o : Option (Node V))
        → entry es key ≡ o
        → BoundedBy (k + 1) (put_entry minus_one capacity fresh es key val o).1
    put_freqs capacity fresh key val none e = λ j m f. ground (arith, f, room_freqs capacity j m)
    put_freqs capacity fresh key val (some n) e =
        λ j m f. ground (arith, f, entry-without es key j d, b key n e, b j m)

module _ {V : Type 0} (rehashes : ℕ → Bool) (minus_one : V) where
  -- The answers of `get`, in order, and the cache at the end.
  abbrev pub run : Cache V → List (Call V) → Option (List V × Cache V)
  run c [] = some ([], c)
  run c (get_call key ∷ calls) = do
    (val, c) ← get rehashes minus_one c key
    (vals, c) ← run c calls
    some (val ∷ vals, c)
  run c (put_call key val ∷ calls) = do c ← put rehashes c key val; run c calls

  abbrev Gets : Cache V → ℕ → List (Node V) → ℕ → Type 0
  Gets c fresh es key =
      (c' : Cache V) × (get rehashes minus_one c key
        ≡ some ((ref_get minus_one (fresh, es) key).0, c'))
      × Same minus_one c' (ref_get minus_one (fresh, es) key).1
      × (c'.capacity ≡ c.capacity)
      × (length (ref_get minus_one (fresh, es) key).1.1 ≤ c.capacity)

  abbrev Puts : ℕ → Cache V → ℕ → List (Node V) → ℕ → V → Type 0
  Puts capacity c fresh es key val =
      (c' : Cache V) × (put rehashes c key val ≡ some c')
      × Same minus_one c' (ref_put minus_one capacity (fresh, es) key val)
      × (c'.capacity ≡ c.capacity)
      × (length (ref_put minus_one capacity (fresh, es) key val).1 ≤ capacity)

  module _ {c : Cache V} {es : List (Node V)} {fresh : ℕ} (same : Same minus_one c (fresh, es))
      (quiet : (i : ℕ) → rehashes i ≡ false) (small : Raises minus_one es) (room : 0 < c.capacity)
      (within : length es ≤ c.capacity) where
    gets : (key : ℕ) → Gets c fresh es key
    gets key =
        let (c', ran, rep, kept) = get-Same minus_one rehashes quiet c es same.0 small key room in
        let bound = get_within minus_one same.0 room within key (entry es key) refl in
        subst (λ k. Gets c k es key) same.1 (c', ran, rep, kept, bound)

    puts : (capacity key : ℕ) (val : V) → c.capacity ≡ capacity → Puts capacity c fresh es key val
    puts capacity key val e =
        let (c', ran, rep, kept) =
          put-Same minus_one rehashes quiet c es same.0 small key room val in
        let bound = put_within minus_one same.0 room within key val (entry es key) refl in
        subst (λ n. Puts n c fresh es key val) e
          (subst (λ k. Puts c.capacity c k es key val) same.1 (c', ran, rep, kept, bound))

  abbrev pub Ends : ℕ → Cache V → Entries minus_one → List (Call V) → Type 0
  Ends capacity c e calls =
      (c' : Cache V) × (run c calls ≡ some ((ref_run minus_one capacity e calls).0, c'))
      × Same minus_one c' (ref_run minus_one capacity e calls).1
      × (length c'.key_table ≤ capacity)

  runs :
      (capacity : ℕ) (calls : List (Call V)) (c : Cache V) (fresh : ℕ) (es : List (Node V)) (k : ℕ)
      → ((i : ℕ) → rehashes i ≡ false)
      → Same minus_one c (fresh, es)
      → c.capacity ≡ capacity
      → 0 < capacity
      → length es ≤ capacity
      → BoundedBy minus_one k es
      → k + length calls < 2 ^ 31
      → Ends capacity c (fresh, es) calls
  runs capacity [] c fresh es k quiet v e room within b few =
      (c, refl, v, omega (arith, v.0.size, within))
  runs capacity (get_call key ∷ calls) c fresh es k quiet v e room within b few =
      let small : Raises minus_one es = λ j n f. omega (arith, b j n f) in
      let (made, ran, same, kept, bound) = gets v quiet small (omega arith) (omega arith) key in
      let (fresh', es') = (ref_get minus_one (fresh, es) key).1 in
      let b' = get_freqs minus_one k es b (Rep.distinct v.0) fresh key (entry es key) refl in
      let (c', ran', same', within') =
        runs capacity calls made fresh' es' (k + 1) quiet same (kept ∙ e) room (omega arith) b'
          (omega arith) in
      (
        c',
        ap (λ o. o >>= λ x. run x.1 calls >>= λ y. some (x.0 ∷ y.0, y.1)) ran
            ∙ ap (λ o. o >>= λ y. some ((ref_get minus_one (fresh, es) key).0 ∷ y.0, y.1)) ran',
        same',
        within',
      )
  runs capacity (put_call key val ∷ calls) c fresh es k quiet v e room within b few =
      let small : Raises minus_one es = λ j n f. omega (arith, b j n f) in
      let (made, ran, same, kept, bound) =
        puts v quiet small (omega arith) (omega arith) capacity key val e in
      let (fresh', es') = ref_put minus_one capacity (fresh, es) key val in
      let b' =
        put_freqs minus_one k es b (Rep.distinct v.0) capacity fresh key val (entry es key) refl in
      let (c', ran', same', within') =
        runs capacity calls made fresh' es' (k + 1) quiet same (kept ∙ e) room bound b'
          (omega arith) in
      (c', ap (λ o. o >>= λ c. run c calls) ran ∙ ran', same', within')

  -- A new cache refines the reference, if no insertion of a new frequency rehashes `freq_table`: after
  -- any calls of `get` and `put`, fewer than 2 ^ 31, the cache is not undefined, has answered every
  -- `get` as the reference does, has its entries, and has no more of them than its capacity, if that
  -- is not 0.
  pub lfu_refines :
      (capacity : ℕ) (calls : List (Call V))
      → ((i : ℕ) → rehashes i ≡ false)
      → length calls < 2 ^ 31
      → 0 < capacity
      → Ends capacity (init capacity) (0, []) calls
  unfolding init
  lfu_refines capacity calls quiet few room =
      runs capacity calls (init capacity) 0 [] 0 quiet (init-Same minus_one capacity) refl room
        (omega arith) (λ key n e. absurd (ground (arith, e))) (omega arith)
