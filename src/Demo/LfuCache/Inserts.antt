-- ===== src/Demo/LfuCache/Inserts.antt =====
-- How `put` of src/demo/lfu.cpp throws an entry out and adds one.
use cpp_wtfsc.Base.{
  ℕ, ◌+◌, ◌≡◌, ◌≢◌, refl, ap, ◌∙◌, fun_ext, true, Option-cases, inl, inr, List, [], ◌∷◌, Option,
  none, some, arith,
}
use cpp_wtfsc.Demo.LfuCache.{
  Node, Cache, find, discard, init_part, shrink, new_list, min_freq, evict, insert_new,
}
use cpp_wtfsc.Demo.LfuCache.Tables.{
  find-assign, find-discard, Unique-assign, Unique-discard, length-assign_new, length-discard,
}
use cpp_wtfsc.Demo.LfuCache.Orders.{Order, Ascends, Absent-none}
use cpp_wtfsc.Demo.LfuCache.Groups.{groups, change}
use cpp_wtfsc.Demo.LfuCache.Lists.{
  is_none, is_nil, Lists, nodes_at_lem, shrink-Lists, grown, Adds, push_front-Adds, new_first-Adds,
}
use cpp_wtfsc.Demo.LfuCache.Entries.{
  entry, without, only, least, victim, entry-without, only-without, node_in-without-none,
  Distinct-without, length-without, only_freq, least_lem, last_there, last-only,
}
use cpp_wtfsc.Demo.LfuCache.Represents.{Rep, id_of, shrink_kept}

module _ {V : Type 0} where
  -- The first list has the least frequency.
  first_least :
      (es : List (Node V)) (o : Order) (f i : ℕ)
      → Ascends ((f, i) ∷ o)
      → ((g : ℕ) → is_nil (only es g) ≡ is_none (find ((f, i) ∷ o) g))
      → least es ≡ f
  first_least es o f i a filled =
      least_lem es f (λ q. ground (arith, filled f, q))
        (λ k lt. ground (arith, filled k, lt, Absent-none o f i k a.0))

  nothing_left : (es : List (Node V)) → es ≢ [] → ((g : ℕ) → is_nil (only es g) ≡ true) → ⊥
  nothing_left [] ne h = ne refl
  nothing_left (n ∷ es) ne h = ground (arith, h n.freq)

  module _ {c : Cache V} {es : List (Node V)} (v : Rep c es) where
    first_freq :
        (f : ℕ) (ns : List (Node V))
        → only es f ≡ ns
        → ns ≢ []
        → elim ns as (λ _. Option ℕ) [ [] ↦ none | n ∷ rest ↦ some n.freq ] ≡ some f
    first_freq f [] e ne = absurd (ne refl)
    first_freq f (n ∷ rest) e ne = ap some (only_freq es f n rest e)

    min_freq_lem : es ≢ [] → (min_freq c ≡ some (least es)) × (find v.order (least es) ≢ none)
    unfolding min_freq
    min_freq_lem ne = go v.order v.lists.ascends v.lists.shape v.lists.filled
      where
        go :
            (o : Order)
            → Ascends o
            → c.freq_list ≡ groups (only es) o
            → ((g : ℕ) → is_nil (only es g) ≡ is_none (find o g))
            → (min_freq c ≡ some (least es)) × (find o (least es) ≢ none)
        go [] a e filled = absurd (nothing_left es ne filled)
        go ((f, i) ∷ o) a e filled =
            let small = first_least es o f i a filled in
            (
              rw (e, small) (first_freq f (only es f) refl (λ q. ground (arith, filled f, q))),
              λ q. ground (arith, q, small),
            )

    pub evict-Rep :
        es ≢ []
        → (n : Node V) × (victim es ≡ some n)
          × (c' : Cache V) × (evict c ≡ some c')
          × Rep c' (without es n.key)
          × (c'.capacity ≡ c.capacity)
          × (c'.fresh ≡ c.fresh)
    unfolding evict
    evict-Rep ne = elim (Option-cases (find v.order (least es))) [
      | inl q ↦ absurd ((min_freq_lem ne).1 q)
      | inr (i, f) ↦
          let filled = v.lists.filled (least es) in
          let (n, e) = last_there (only es (least es)) (λ q. ground (arith, filled, f, q)) in
          let (there, freq, cut) = last-only es (least es) n v.distinct e in
          let c' : Cache V = record c { key_table = discard c.key_table n.key } in
          let cut_list = init_part (only es (least es)) in
          let lists' : Lists c' (only es) v.order = record {
            ascends = v.lists.ascends;
            shape = v.lists.shape;
            freqs = v.lists.freqs;
            freq_unique = v.lists.freq_unique;
            filled = v.lists.filled;
            unused = v.lists.unused;
            positive = v.lists.positive;
          } in
          let (o', shrunk) = shrink-Lists lists' (least es) i cut_list f in
          let (k, x, y) = shrink_kept c' i (least es) cut_list in
          let regrouped : (g : ℕ)
              → change (only es) (least es) cut_list g ≡ only (without es n.key) g =
            λ g. ground (arith, cut, freq, only-without es n.key g n there) in
          let found : find c.key_table n.key ≡ some n.id = v.keys n.key ∙ ap id_of there in
          (
            n,
            e,
            shrink c' i (least es) cut_list,
            rw
                (
                  (min_freq_lem ne).0,
                  v.lists.freqs (least es) ∙ f,
                  nodes_at_lem v.lists (least es) i f,
                  e,
                )
                refl,
            record {
              order = o';
              lists = rw (fun_ext regrouped) at shrunk;
              keys = λ j. rw k (
                  ground (
                    arith,
                    find-discard c.key_table n.key j v.key_unique,
                    v.keys j,
                    entry-without es n.key j v.distinct,
                  ));
              key_unique = rw k (Unique-discard c.key_table n.key v.key_unique);
              size = rw k (
                  omega (
                    arith,
                    length-discard c.key_table n.key n.id found,
                    v.size,
                    length-without es n.key n there,
                  ));
              distinct = Distinct-without es n.key v.distinct;
              old = λ j h. node_in-without-none es n.key j (v.old j (omega (arith, h, x)));
            },
            y,
            x,
          )
    ]

    module _ (key : ℕ) (val : V) (new : entry es key ≡ none) where
      abbrev pub added : List (Node V)
      added = record { id = c.fresh; key = key; val = val; freq = 1 } ∷ es

      Adds-Rep : (c' : Cache V) → Adds v.lists key val 1 c' → Rep c' added
      Adds-Rep c' (o', lists, keys, fresh, capacity, finds) =
          let absent : find c.key_table key ≡ none = v.keys key ∙ ap id_of new in
          let regrouped : (g : ℕ) → grown v.lists key val 1 g ≡ only added g = λ g. ground arith in
          record {
            order = o';
            lists = rw (fun_ext regrouped) at lists;
            keys = λ j. rw keys (ground (arith, find-assign c.key_table key c.fresh j, v.keys j));
            key_unique = rw keys (Unique-assign c.key_table key c.fresh v.key_unique);
            size =
                rw keys (omega (arith, length-assign_new c.key_table key c.fresh absent, v.size));
            distinct = (new, v.old c.fresh (omega arith), v.distinct);
            old = λ j h. ground (arith, h, fresh, v.old j (omega (arith, h, fresh)));
          }

      pub insert_new-Rep :
          (c' : Cache V) × (insert_new c key val ≡ some c')
          × Rep c' added
          × (c'.capacity ≡ c.capacity)
          × (c'.fresh ≡ c.fresh + 1)
      insert_new-Rep = elim (Option-cases (find v.order 1)) [
        | inl q ↦
            let adds = new_first-Adds v.lists key val q in
            let c' = new_list c (λ g. g ∷ c.freq_list) key val 1 in
            (c', rw (v.lists.freqs 1 ∙ q, insert_new) refl, Adds-Rep c' adds, adds.4, adds.3)
        | inr (i, q) ↦
            let (c', pushed, adds) = push_front-Adds v.lists key val 1 i q in
            (c', rw (v.lists.freqs 1 ∙ q, insert_new) pushed, Adds-Rep c' adds, adds.4, adds.3)
      ]
