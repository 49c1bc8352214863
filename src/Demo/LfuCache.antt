-- ===== src/Demo/LfuCache.antt =====
-- `LFUCache` of src/demo/lfu.cpp. An iterator is the number of the list node that it points to, which no
-- later node has; following one whose node is gone is `none`, as is any other undefined access. A key
-- is only compared, and is a natural number. A value has a type of its own, with the -1 that `get`
-- returns for a missing key. A capacity below 0 is left out. `rehashes` says of each insertion into
-- `freq_table`, by the number of the list that is inserted, whether the table is rehashed there.
mod Tables
mod Orders
mod Groups
mod Lists
mod Entries
mod Represents
mod Inserts
mod Refine
mod Sessions
mod Erases
mod Tests
use cpp_wtfsc.Base.{
  ℕ, ◌+◌, ◌≡◌, Bool, List, [], ◌∷◌, ◌++◌, Option, none, some, ◌>>=◌, length, if◌then◌else◌, ◌==◌,
  ◌^◌, ltb,
}

pub record Node (V : Type 0) : Type 0 where
  pub id : ℕ
  pub key : ℕ
  pub val : V
  pub freq : ℕ

-- A list of the list of lists.
pub record Group (V : Type 0) : Type 0 where
  pub id : ℕ
  pub nodes : List (Node V)

-- `fresh` is the number of the next list node.
pub record Cache (V : Type 0) : Type 0 where
  pub capacity : ℕ
  pub key_table : List (ℕ × ℕ)
  pub freq_table : List (ℕ × ℕ)
  pub freq_list : List (Group V)
  pub fresh : ℕ

-- `std::unordered_map`: `find`, an assignment through `[]`, and `erase`.
abbrev pub find : List (ℕ × ℕ) → ℕ → Option ℕ
find [] k = none
find ((j, v) ∷ m) k = if j == k then some v else find m k

abbrev pub assign : List (ℕ × ℕ) → ℕ → ℕ → List (ℕ × ℕ)
assign [] k v = (k, v) ∷ []
assign ((j, w) ∷ m) k v = if j == k then (k, v) ∷ m else (j, w) ∷ assign m k v

abbrev pub discard : List (ℕ × ℕ) → ℕ → List (ℕ × ℕ)
discard [] k = []
discard ((j, v) ∷ m) k = if j == k then m else (j, v) ∷ discard m k

module _ {V : Type 0} where
  abbrev pub node_in : List (Node V) → ℕ → Option (Node V)
  node_in [] i = none
  node_in (n ∷ ns) i = if n.id == i then some n else node_in ns i

  -- What an iterator to a node points to.
  abbrev pub deref : List (Group V) → ℕ → Option (Node V)
  deref [] i = none
  deref (g ∷ gs) i = elim (node_in g.nodes i) [ some n ↦ some n | none ↦ deref gs i ]

  -- What an iterator to a list points to.
  abbrev pub nodes_at : List (Group V) → ℕ → Option (List (Node V))
  nodes_at [] i = none
  nodes_at (g ∷ gs) i = if g.id == i then some g.nodes else nodes_at gs i

  abbrev pub set_nodes : List (Group V) → ℕ → List (Node V) → List (Group V)
  set_nodes [] i ns = []
  set_nodes (g ∷ gs) i ns =
      if g.id == i then record { id = i; nodes = ns } ∷ gs else g ∷ set_nodes gs i ns

  -- `freq_list.insert(next(it), new_list)`.
  abbrev pub insert_after : List (Group V) → ℕ → Group V → List (Group V)
  insert_after [] i new = new ∷ []
  insert_after (g ∷ gs) i new = if g.id == i then g ∷ new ∷ gs else g ∷ insert_after gs i new

  abbrev pub remove_group : List (Group V) → ℕ → List (Group V)
  remove_group [] i = []
  remove_group (g ∷ gs) i = if g.id == i then gs else g ∷ remove_group gs i

  -- `erase(node)` of a list, to which the node must belong.
  abbrev pub erase_node : List (Node V) → ℕ → Option (List (Node V))
  erase_node [] i = none
  erase_node (n ∷ ns) i =
      if n.id == i then some ns else (erase_node ns i >>= λ rest. some (n ∷ rest))

  abbrev pub last : List (Node V) → Option (Node V)
  last [] = none
  last (n ∷ []) = some n
  last (n ∷ m ∷ ns) = last (m ∷ ns)

  abbrev pub init_part : List (Node V) → List (Node V)
  init_part [] = []
  init_part (n ∷ []) = []
  init_part (n ∷ m ∷ ns) = n ∷ init_part (m ∷ ns)

  unfoldable pub init : ℕ → Cache V
  init capacity = record {
    capacity = capacity;
    key_table = [];
    freq_table = [];
    freq_list = [];
    fresh = 0;
  }

  -- The list at `it` has become `ns`: an empty list is taken out of `freq_list` and of `freq_table`.
  abbrev pub shrink : Cache V → ℕ → ℕ → List (Node V) → Cache V
  shrink c it freq [] = record c {
    freq_list = remove_group c.freq_list it;
    freq_table = discard c.freq_table freq;
  }
  shrink c it freq (n ∷ ns) = record c { freq_list = set_nodes c.freq_list it (n ∷ ns) }

  -- A new first node in the list at `it`; the key leads to it.
  abbrev pub push_front : Cache V → ℕ → ℕ → V → ℕ → Option (Cache V)
  push_front c it key val freq = do
    ns ← nodes_at c.freq_list it
    some (record c {
      freq_list =
          set_nodes c.freq_list it
            (record { id = c.fresh; key = key; val = val; freq = freq } ∷ ns);
      key_table = assign c.key_table key c.fresh;
      fresh = c.fresh + 1;
    })

  -- A list of one node, put into `freq_list` by `place`.
  abbrev pub new_list : Cache V → (Group V → List (Group V)) → ℕ → V → ℕ → Cache V
  new_list c place key val freq = record c {
    freq_list = place (record {
      id = c.fresh;
      nodes = record { id = c.fresh; key = key; val = val; freq = freq } ∷ [];
    });
    freq_table = assign c.freq_table freq c.fresh;
    key_table = assign c.key_table key c.fresh;
    fresh = c.fresh + 1;
  }

  -- The node that `node` points to, of frequency `freq`, is replaced by one of frequency `freq + 1`,
  -- where that is an `int`. A rehash invalidates `it_list`, which is used after it.
  unfoldable pub promote : (ℕ → Bool) → Cache V → ℕ → V → ℕ → ℕ → Option (Cache V)
  promote rehashes c key val node freq = do
    it_list ← find c.freq_table freq
    new_freq ← (if ltb (freq + 1) (2 ^ 31) then some (freq + 1) else none)
    c ← elim (find c.freq_table new_freq) [
      | some it ↦ push_front c it key val new_freq
      | none ↦
          if rehashes c.fresh
          then none
          else some (new_list c (insert_after c.freq_list it_list) key val new_freq)
    ]
    ns ← nodes_at c.freq_list it_list
    rest ← erase_node ns node
    some (shrink c it_list freq rest)

  unfoldable pub get : (ℕ → Bool) → V → Cache V → ℕ → Option (V × Cache V)
  get rehashes minus_one c key =
      if c.capacity == 0 then some (minus_one, c) else elim (find c.key_table key) [
        | none ↦ some (minus_one, c)
        | some it ↦ do
          node ← deref c.freq_list it
          c ← promote rehashes c key node.val it node.freq
          some (node.val, c)
      ]

  unfoldable pub min_freq : Cache V → Option ℕ
  min_freq c = elim c.freq_list [
    | [] ↦ some 0
    | g ∷ gs ↦ elim g.nodes [ [] ↦ none | n ∷ ns ↦ some n.freq ]
  ]

  unfoldable pub evict : Cache V → Option (Cache V)
  evict c = do
    minfreq ← min_freq c
    it_list ← find c.freq_table minfreq
    ns ← nodes_at c.freq_list it_list
    it2 ← last ns
    some (
        shrink (record c { key_table = discard c.key_table it2.key }) it_list minfreq
          (init_part ns))

  abbrev pub insert_new : Cache V → ℕ → V → Option (Cache V)
  insert_new c key val = elim (find c.freq_table 1) [
    | none ↦ some (new_list c (λ g. g ∷ c.freq_list) key val 1)
    | some it ↦ push_front c it key val 1
  ]

  unfoldable pub put : (ℕ → Bool) → Cache V → ℕ → V → Option (Cache V)
  put rehashes c key val = if c.capacity == 0 then some c else elim (find c.key_table key) [
    | none ↦ do
      c ← (if length c.key_table == c.capacity then evict c else some c)
      insert_new c key val
    | some it ↦ do node ← deref c.freq_list it; promote rehashes c key val it node.freq
  ]

  unfoldable pub erase : Cache V → ℕ → Option (Cache V)
  erase c key = if c.capacity == 0 then some c else elim (find c.key_table key) [
    | none ↦ some c
    | some it ↦ do
      node ← deref c.freq_list it
      it_list ← find c.freq_table node.freq
      ns ← nodes_at c.freq_list it_list
      rest ← erase_node ns it
      some (shrink c it_list node.freq rest)
  ]
