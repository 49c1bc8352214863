-- ===== src/Demo/LfuCache/Refine.antt =====
-- `LFUCache` of src/demo/lfu.cpp refines a cache that throws out the least frequently used entry.
use cpp_wtfsc.Base.{
  ℕ, ◌+◌, ◌^◌, ◌≡◌, ◌<◌, refl, ap, ◌∙◌, Bool, false, Bool-cases, inl, inr, List, [], ◌∷◌, Option,
  none, some, ◌>>=◌, length, if◌then◌else◌, ◌==◌, arith,
}
use cpp_wtfsc.Demo.LfuCache.{Node, Cache, init, get, put, evict, insert_new}
use cpp_wtfsc.Demo.LfuCache.Entries.{entry, without, victim, entry-without}
use cpp_wtfsc.Demo.LfuCache.Represents.{Rep, deref_lem, promote-Rep}
use cpp_wtfsc.Demo.LfuCache.Inserts.{evict-Rep, insert_new-Rep}

module _ {V : Type 0} (minus_one : V) where
  -- The reference: a list of entries, the one used last first, and the number of the next entry.
  abbrev pub Entries : Type 0
  Entries = ℕ × List (Node V)

  abbrev pub get_entry : ℕ → List (Node V) → ℕ → Option (Node V) → V × Entries
  get_entry fresh es key none = (minus_one, (fresh, es))
  get_entry fresh es key (some n) = (
    n.val,
    (fresh + 1, record { id = fresh; key = key; val = n.val; freq = n.freq + 1 } ∷ without es key),
  )

  -- An entry that is found comes first, with its frequency one higher.
  abbrev pub ref_get : Entries → ℕ → V × Entries
  ref_get (fresh, es) key = get_entry fresh es key (entry es key)

  abbrev pub without_victim : List (Node V) → Option (Node V) → List (Node V)
  without_victim es none = es
  without_victim es (some n) = without es n.key

  -- A full cache loses, of the entries that were used least often, the one that was used longest ago.
  abbrev pub ref_room : ℕ → List (Node V) → List (Node V)
  ref_room capacity es = if length es == capacity then without_victim es (victim es) else es

  abbrev pub put_entry : ℕ → ℕ → List (Node V) → ℕ → V → Option (Node V) → Entries
  put_entry capacity fresh es key val none =
      (fresh + 1, record { id = fresh; key = key; val = val; freq = 1 } ∷ ref_room capacity es)
  put_entry capacity fresh es key val (some n) =
      (fresh + 1, record { id = fresh; key = key; val = val; freq = n.freq + 1 } ∷ without es key)

  abbrev pub ref_put : ℕ → Entries → ℕ → V → Entries
  ref_put capacity (fresh, es) key val = put_entry capacity fresh es key val (entry es key)

  abbrev pub Same : Cache V → Entries → Type 0
  Same c (fresh, es) = Rep c es × (c.fresh ≡ fresh)

  pub init-Same : (capacity : ℕ) → Same (init {V = V} capacity) (0, [])
  unfolding init
  init-Same capacity = (
    record {
      order = [];
      lists = record {
        ascends = tt;
        shape = refl;
        freqs = λ f. refl;
        freq_unique = tt;
        filled = λ f. refl;
        unused = λ i h. tt;
        positive = refl;
      };
      keys = λ k. refl;
      key_unique = tt;
      size = refl;
      distinct = tt;
      old = λ i h. refl;
    },
    refl,
  )

  -- Every frequency can be raised once more.
  abbrev pub Raises : List (Node V) → Type 0
  Raises es = (key : ℕ) (n : Node V) → entry es key ≡ some n → n.freq + 1 < 2 ^ 31

  module _ (rehashes : ℕ → Bool) (quiet : (i : ℕ) → rehashes i ≡ false) (c : Cache V)
      (es : List (Node V)) (v : Rep c es) (small : Raises es) (key : ℕ)
      (room : 0 < c.capacity) where
    open_cache : (c.capacity == 0) ≡ false
    open_cache = ground arith

    get_found :
        (o : Option (Node V))
        → entry es key ≡ o
        → (c' : Cache V) × (get rehashes minus_one c key
            ≡ some ((get_entry c.fresh es key o).0, c'))
          × Same c' (get_entry c.fresh es key o).1
          × (c'.capacity ≡ c.capacity)
    unfolding get
    get_found none e = (c, rw (open_cache, v.keys key, e) refl, (v, refl), refl)
    get_found (some n) e =
        let (c', run, rep, same, next) =
          promote-Rep v key n.val n e rehashes (quiet c.fresh) (small key n e) in
        (c', rw (open_cache, v.keys key, e) (rw (deref_lem v key n e, run) refl), (rep, next), same)

    pub get-Same :
        (c' : Cache V) × (get rehashes minus_one c key ≡ some ((ref_get (c.fresh, es) key).0, c'))
        × Same c' (ref_get (c.fresh, es) key).1
        × (c'.capacity ≡ c.capacity)
    get-Same = get_found (entry es key) refl

    -- There is room for a new entry, after one was thrown out of a full cache.
    makes_room :
        entry es key ≡ none
        → (c' : Cache V) × ((if length c.key_table == c.capacity then evict c else some c)
            ≡ some c')
          × Rep c' (ref_room c.capacity es)
          × (entry (ref_room c.capacity es) key ≡ none)
          × (c'.capacity ≡ c.capacity)
          × (c'.fresh ≡ c.fresh)
    makes_room e = elim (Bool-cases (length es == c.capacity)) [
      | inr q ↦ rw (v.size, q) (c, refl, v, e, refl, refl)
      | inl q ↦
          let (n, f, c', run, rep, same, next) =
            evict-Rep v (λ z. absurd (ground (arith, q, z, room))) in
          rw (v.size, q, f)
            (c', run, rep, ground (arith, e, entry-without es n.key key v.distinct), same, next)
    ]

    put_found :
        (val : V) (o : Option (Node V))
        → entry es key ≡ o
        → (c' : Cache V) × (put rehashes c key val ≡ some c')
          × Same c' (put_entry c.capacity c.fresh es key val o)
          × (c'.capacity ≡ c.capacity)
    unfolding put
    put_found val none e =
        let (made, run, rep, new, same, next) = makes_room e in
        let (c', run', rep', same', next') = insert_new-Rep rep key val new in
        (
          c',
          rw (open_cache, v.keys key, e) (ap (λ o. o >>= λ c. insert_new c key val) run ∙ run'),
          (rw next at rep', next' ∙ ap (λ k. k + 1) next),
          same' ∙ same,
        )
    put_found val (some n) e =
        let (c', run, rep, same, next) =
          promote-Rep v key val n e rehashes (quiet c.fresh) (small key n e) in
        (c', rw (open_cache, v.keys key, e) (rw (deref_lem v key n e) run), (rep, next), same)

    pub put-Same :
        (val : V)
        → (c' : Cache V) × (put rehashes c key val ≡ some c')
          × Same c' (ref_put c.capacity (c.fresh, es) key val)
          × (c'.capacity ≡ c.capacity)
    put-Same val = put_found val (entry es key) refl
