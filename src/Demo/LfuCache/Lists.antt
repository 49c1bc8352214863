-- ===== src/Demo/LfuCache/Lists.antt =====
-- How the helpers of src/demo/lfu.cpp change the list of lists and the table of its frequencies.
use cpp_wtfsc.Base.{
  ℕ, ◌+◌, ◌≡◌, ◌≢◌, ◌<◌, ◌≤◌, refl, sym, ap, ◌∙◌, Bool, true, false, List, [], ◌∷◌, Option, none,
  some, if◌then◌else◌, ◌==◌, arith,
}
use cpp_wtfsc.Demo.LfuCache.{
  Node, Group, Cache, find, assign, discard, nodes_at, set_nodes, insert_after, remove_group,
  shrink, push_front, new_list,
}
use cpp_wtfsc.Demo.LfuCache.Tables.{
  find-assign, find-discard, Unique, Unique-assign, Unique-discard,
}
use cpp_wtfsc.Demo.LfuCache.Orders.{
  Order, Ascends, Unused, insert_order, find-discard_order, find-insert_order, Ascends-discard,
  Ascends-insert, Unused-discard, Unused-insert, Absent-first,
}
use cpp_wtfsc.Demo.LfuCache.Groups.{
  groups, change, nodes_at-groups, groups-none, set_nodes-groups, remove_group-groups,
  insert_after-groups,
}

abbrev pub is_none : {B : Type 0} → Option B → Bool
is_none none = true
is_none (some b) = false

abbrev pub is_nil : {B : Type 0} → List B → Bool
is_nil [] = true
is_nil (b ∷ bs) = false

module _ {V : Type 0} where
  -- The lists of a cache are those of `nodes` that are not empty, in the order of their frequencies.
  pub record Lists (c : Cache V) (nodes : ℕ → List (Node V)) (o : Order) : Type 0 where
    pub ascends : Ascends o
    pub shape : c.freq_list ≡ groups nodes o
    pub freqs : (f : ℕ) → find c.freq_table f ≡ find o f
    pub freq_unique : Unique c.freq_table
    pub filled : (f : ℕ) → is_nil (nodes f) ≡ is_none (find o f)
    pub unused : (i : ℕ) → c.fresh ≤ i → Unused o i
    pub positive : find o 0 ≡ none

  module _ {c : Cache V} {nodes : ℕ → List (Node V)} {o : Order} (v : Lists c nodes o) where
    pub nodes_at_lem : (f i : ℕ) → find o f ≡ some i → nodes_at c.freq_list i ≡ some (nodes f)
    nodes_at_lem f i e = rw v.shape (nodes_at-groups nodes o f i v.ascends e)

    pub shrink-Lists :
        (f i : ℕ) (rest : List (Node V))
        → find o f ≡ some i
        → (o' : Order) × Lists (shrink c i f rest) (change nodes f rest) o'
    shrink-Lists f i [] e = (
      discard o f,
      record {
        ascends = Ascends-discard o f v.ascends;
        shape =
            ap (λ l. remove_group l i) v.shape
            ∙ remove_group-groups nodes o f i v.ascends e
            ∙ sym (
                groups-none nodes [] (discard o f) f
                  (ground (arith, find-discard_order o f f v.ascends)));
        freqs = λ g. ground (
          arith,
          find-discard c.freq_table f g v.freq_unique,
          find-discard_order o f g v.ascends,
          v.freqs g,
        );
        freq_unique = Unique-discard c.freq_table f v.freq_unique;
        filled = λ g. ground (arith, find-discard_order o f g v.ascends, v.filled g);
        unused = λ j h. Unused-discard o f j (v.unused j h);
        positive = ground (arith, v.positive, find-discard_order o f 0 v.ascends);
      },
    )
    shrink-Lists f i (n ∷ ns) e = (
      o,
      record {
        ascends = v.ascends;
        shape =
            ap (λ l. set_nodes l i (n ∷ ns)) v.shape
            ∙ set_nodes-groups nodes (n ∷ ns) o f i v.ascends e;
        freqs = v.freqs;
        freq_unique = v.freq_unique;
        filled = λ g. ground (arith, v.filled g, e);
        unused = v.unused;
        positive = v.positive;
      },
    )

    module _ (key : ℕ) (val : V) (f : ℕ) where
      abbrev node : Node V
      node = record { id = c.fresh; key = key; val = val; freq = f }

      abbrev pub grown : ℕ → List (Node V)
      grown = change nodes f (node ∷ nodes f)

      -- What adding a node does to the cache.
      abbrev pub Adds : Cache V → Type 0
      Adds c' =
          (o' : Order) × Lists c' grown o'
          × (c'.key_table ≡ assign c.key_table key c.fresh)
          × (c'.fresh ≡ c.fresh + 1)
          × (c'.capacity ≡ c.capacity)
          × ((g : ℕ) → find o' g ≡ (if f == g then find o' f else find o g))

      pub push_front-Adds :
          (i : ℕ)
          → find o f ≡ some i
          → (c' : Cache V) × (push_front c i key val f ≡ some c') × Adds c'
      push_front-Adds i e = (
        record c {
          freq_list = set_nodes c.freq_list i (node ∷ nodes f);
          key_table = assign c.key_table key c.fresh;
          fresh = c.fresh + 1;
        },
        rw (nodes_at_lem f i e) refl,
        (
          o,
          record {
            ascends = v.ascends;
            shape =
                ap (λ l. set_nodes l i (node ∷ nodes f)) v.shape
                ∙ set_nodes-groups nodes (node ∷ nodes f) o f i v.ascends e;
            freqs = v.freqs;
            freq_unique = v.freq_unique;
            filled = λ g. ground (arith, v.filled g, e);
            unused = λ j h. v.unused j (omega arith);
            positive = v.positive;
          },
          refl,
          refl,
          refl,
          λ g. ground arith,
        ),
      )

      none_yet : find o f ≡ none → nodes f ≡ []
      none_yet e = ground (arith, v.filled f, e)

      -- A new list behind the list of the frequency before, or in front of all.
      pub new_list-Adds :
          (place : Group V → List (Group V)) (o' : Order)
          → find o f ≡ none
          → 0 < f
          → Ascends o'
          → place (record { id = c.fresh; nodes = node ∷ [] })
            ≡ groups (change nodes f (node ∷ [])) o'
          → ((g : ℕ) → find o' g ≡ (if f == g then some c.fresh else find o g))
          → ((i : ℕ) → Unused o i → c.fresh ≢ i → Unused o' i)
          → Adds (new_list c place key val f)
      new_list-Adds place o' e pos a q g u =
          let alone : node ∷ [] ≡ node ∷ nodes f = ap (λ l. node ∷ l) (sym (none_yet e)) in
          (
            o',
            record {
              ascends = a;
              shape = q ∙ ap (λ l. groups (change nodes f l) o') alone;
              freqs = λ k. ground (arith, find-assign c.freq_table f c.fresh k, g k, v.freqs k);
              freq_unique = Unique-assign c.freq_table f c.fresh v.freq_unique;
              filled = λ k. ground (arith, g k, v.filled k);
              unused = λ j h. u j (v.unused j (omega arith)) (omega arith);
              positive = ground (arith, g 0, v.positive, pos);
            },
            refl,
            refl,
            refl,
            λ k. ground (arith, g k, g f),
          )

      pub new_after-Adds :
          (f' i : ℕ)
          → f ≡ f' + 1
          → find o f' ≡ some i
          → find o f ≡ none
          → Adds (new_list c (insert_after c.freq_list i) key val f)
      new_after-Adds f' i next e n =
          let n' : find o (f' + 1) ≡ none = rw next at n in
          new_list-Adds (insert_after c.freq_list i) (insert_order o f' f c.fresh) n (omega arith)
            (rw next
              (Ascends-insert o f' i c.fresh v.ascends e n' (v.unused c.fresh (omega arith))))
            (rw v.shape (insert_after-groups nodes (node ∷ []) o f' f i c.fresh v.ascends e n))
            (λ g. find-insert_order o f' f i c.fresh g e n)
            (λ j u ne. Unused-insert o f' f c.fresh j u ne)

  module _ {c : Cache V} {nodes : ℕ → List (Node V)} {o : Order} (v : Lists c nodes o) (key : ℕ)
      (val : V) where
    pub new_first-Adds :
        find o 1 ≡ none → Adds v key val 1 (new_list c (λ g. g ∷ c.freq_list) key val 1)
    new_first-Adds n =
        new_list-Adds v key val 1 (λ g. g ∷ c.freq_list) ((1, c.fresh) ∷ o) n (omega arith)
          (Absent-first o c.fresh v.positive n (v.unused c.fresh (omega arith)), v.ascends)
          (ground (arith, v.shape, groups-none nodes (node v key val 1 ∷ []) o 1 n)) (λ g. refl)
          (λ j u ne. (ne, u))
