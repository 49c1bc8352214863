-- ===== src/Demo/LfuCache/Represents.antt =====
-- A cache of src/demo/lfu.cpp as a list of entries, the one used last first.
use cpp_wtfsc.Base.{
  ℕ, ◌+◌, ◌^◌, ◌≡◌, ◌≤◌, ◌<◌, Bool, true, false, ltb, refl, ap, ◌∙◌, fun_ext, Option-cases, inl,
  inr, List, [], ◌∷◌, Option, none, some, ◌>>=◌, length, arith,
}
use cpp_wtfsc.Demo.LfuCache.{
  Node, Cache, find, node_in, deref, nodes_at, insert_after, erase_node, shrink, new_list, promote,
}
use cpp_wtfsc.Demo.LfuCache.Tables.{find-assign, Unique, Unique-assign, length-assign_old}
use cpp_wtfsc.Demo.LfuCache.Orders.{Order}
use cpp_wtfsc.Demo.LfuCache.Groups.{groups, change}
use cpp_wtfsc.Demo.LfuCache.Lists.{
  Lists, nodes_at_lem, shrink-Lists, grown, Adds, push_front-Adds, new_after-Adds,
}
use cpp_wtfsc.Demo.LfuCache.Entries.{
  entry, without, only, Distinct, entry_key, node_in-entry, node_in-only, erase_node-only,
  only-without, entry-without, node_in-without-none, Distinct-without, length-without, only-entry,
}

module _ {V : Type 0} where
  abbrev pub id_of : Option (Node V) → Option ℕ
  id_of none = none
  id_of (some n) = some n.id

  pub record Rep (c : Cache V) (entries : List (Node V)) : Type 0 where
    pub order : Order
    pub lists : Lists c (only entries) order
    pub keys : (k : ℕ) → find c.key_table k ≡ id_of (entry entries k)
    pub key_unique : Unique c.key_table
    pub size : length c.key_table ≡ length entries
    pub distinct : Distinct entries
    pub old : (i : ℕ) → c.fresh ≤ i → node_in entries i ≡ none

  pub shrink_kept :
      (c : Cache V) (i f : ℕ) (ns : List (Node V))
      → ((shrink c i f ns).key_table ≡ c.key_table)
        × ((shrink c i f ns).fresh ≡ c.fresh)
        × ((shrink c i f ns).capacity ≡ c.capacity)
  shrink_kept c i f [] = (refl, refl, refl)
  shrink_kept c i f (n ∷ ns) = (refl, refl, refl)

  module _ {c : Cache V} {es : List (Node V)} (v : Rep c es) where
    -- The list of an entry's frequency is there.
    pub list_of :
        (k : ℕ) (n : Node V) → entry es k ≡ some n → (i : ℕ) × (find v.order n.freq ≡ some i)
    list_of k n e = elim (Option-cases (find v.order n.freq)) [
      | inl q ↦ absurd (ground (arith, v.lists.filled n.freq, only-entry es k n e, q))
      | inr found ↦ found
    ]

    deref-groups :
        (o : Order) (n : Node V) (i : ℕ)
        → node_in es n.id ≡ some n
        → find o n.freq ≡ some i
        → deref (groups (only es) o) n.id ≡ some n
    deref-groups [] n i e f = absurd (ground (arith, f))
    deref-groups ((j, w) ∷ o) n i e f =
        ground (arith, e, f, node_in-only es j n.id v.distinct, deref-groups o n i e)

    pub deref_lem : (k : ℕ) (n : Node V) → entry es k ≡ some n → deref c.freq_list n.id ≡ some n
    deref_lem k n e =
        let (i, f) = list_of k n e in
        rw v.lists.shape (deref-groups v.order n i (node_in-entry es k n v.distinct e) f)

    -- An entry that is used comes first, with its frequency one higher.
    abbrev pub used : ℕ → V → ℕ → List (Node V)
    used key val f = record { id = c.fresh; key = key; val = val; freq = f } ∷ without es key

    module _ (key : ℕ) (val : V) (n : Node V) (e : entry es key ≡ some n) where
      abbrev rest : List (Node V)
      rest = only (without es key) n.freq

      same_key : n.key ≡ key
      same_key = entry_key es key n e

      erased : erase_node (only es n.freq) n.id ≡ some rest
      erased =
          erase_node-only es n.id n v.distinct (node_in-entry es key n v.distinct e)
          ∙ ap (λ k. some (only (without es k) n.freq)) same_key

      regrouped :
          (g : ℕ)
          → change (grown v.lists key val (n.freq + 1)) n.freq rest g
            ≡ only (used key val (n.freq + 1)) g
      regrouped g = ground (arith, only-without es key g n e, only-without es key (n.freq + 1) n e)

      -- From the cache with the new node to the end of `promote`.
      promoted :
          (c' : Cache V) (i : ℕ)
          → Adds v.lists key val (n.freq + 1) c'
          → find v.order n.freq ≡ some i
          → (nodes_at c'.freq_list i >>= λ ns.
                erase_node ns n.id >>= λ rest. some (shrink c' i n.freq rest))
              ≡ some (shrink c' i n.freq rest)
            × Rep (shrink c' i n.freq rest) (used key val (n.freq + 1))
            × ((shrink c' i n.freq rest).capacity ≡ c.capacity)
            × ((shrink c' i n.freq rest).fresh ≡ c.fresh + 1)
      promoted c' i (o', lists, keys, fresh, capacity, finds) f =
          let f' : find o' n.freq ≡ some i = ground (arith, f, finds n.freq) in
          let (o'', shrunk) = shrink-Lists lists n.freq i rest f' in
          let (k, x, y) = shrink_kept c' i n.freq rest in
          let there : nodes_at c'.freq_list i ≡ some (only es n.freq) =
            nodes_at_lem lists n.freq i f' ∙ ground arith in
          let found : find c.key_table key ≡ some n.id = v.keys key ∙ ap id_of e in
          (
            rw (there, erased) refl,
            record {
              order = o'';
              lists = rw (fun_ext regrouped) at shrunk;
              keys = λ j.
                  rw (k, keys)
                    (ground (
                      arith,
                      find-assign c.key_table key c.fresh j,
                      v.keys j,
                      entry-without es key j v.distinct,
                    ));
              key_unique = rw (k, keys) (Unique-assign c.key_table key c.fresh v.key_unique);
              size =
                  rw (k, keys)
                    (omega (
                      arith,
                      length-assign_old c.key_table key c.fresh n.id found,
                      v.size,
                      length-without es key n e,
                    ));
              distinct = (
                ground (arith, entry-without es key key v.distinct),
                node_in-without-none es key c.fresh (v.old c.fresh (omega arith)),
                Distinct-without es key v.distinct,
              );
              old = λ j h.
                  let later : c.fresh + 1 ≤ j = omega (arith, h, x, fresh) in
                  ground (arith, later, node_in-without-none es key j (v.old j (omega arith)));
            },
            y ∙ capacity,
            x ∙ fresh,
          )

      -- Without a rehash, and with room for its frequency, `promote` is defined on an entry, and makes it the one used last.
      pub promote-Rep :
          (rehashes : ℕ → Bool)
          → rehashes c.fresh ≡ false
          → n.freq + 1 < 2 ^ 31
          → (c' : Cache V) × (promote rehashes c key val n.id n.freq ≡ some c')
            × Rep c' (used key val (n.freq + 1))
            × (c'.capacity ≡ c.capacity)
            × (c'.fresh ≡ c.fresh + 1)
      unfolding promote
      promote-Rep rehashes quiet small =
          let fits : ltb (n.freq + 1) (2 ^ 31) ≡ true = ground arith in
          let (i, f) = list_of key n e in
          let at : find c.freq_table n.freq ≡ some i = v.lists.freqs n.freq ∙ f in
          elim (Option-cases (find v.order (n.freq + 1))) [
            | inl q ↦
                let adds = new_after-Adds v.lists key val (n.freq + 1) n.freq i refl f q in
                let c' = new_list c (insert_after c.freq_list i) key val (n.freq + 1) in
                let (run, rep, same, next) = promoted c' i adds f in
                (
                  shrink c' i n.freq rest,
                  rw (at, fits, v.lists.freqs (n.freq + 1) ∙ q, quiet) run,
                  rep,
                  same,
                  next,
                )
            | inr (j, q) ↦
                let (c', pushed, adds) = push_front-Adds v.lists key val (n.freq + 1) j q in
                let (run, rep, same, next) = promoted c' i adds f in
                (
                  shrink c' i n.freq rest,
                  rw (at, fits, v.lists.freqs (n.freq + 1) ∙ q)
                      (ap
                          (λ (o : Option (Cache V)). o >>= λ c. nodes_at c.freq_list i >>= λ ns.
                            erase_node ns n.id >>= λ rest. some (shrink c i n.freq rest))
                          pushed
                        ∙ run),
                  rep,
                  same,
                  next,
                )
          ]
