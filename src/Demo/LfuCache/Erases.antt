-- ===== src/Demo/LfuCache/Erases.antt =====
-- `erase` of src/demo/lfu.cpp.
use cpp_wtfsc.Base.{ℕ, ◌≡◌, ◌<◌, refl, ap, ◌∙◌, Bool, false, List, [], ◌∷◌, none, some, ◌==◌, arith}
use cpp_wtfsc.Demo.LfuCache.{Node, Cache, find, node_in, deref, erase_node, shrink, get, put, erase}
use cpp_wtfsc.Demo.LfuCache.Orders.{Order}
use cpp_wtfsc.Demo.LfuCache.Groups.{groups, change}
use cpp_wtfsc.Demo.LfuCache.Lists.{nodes_at_lem, shrink-Lists}
use cpp_wtfsc.Demo.LfuCache.Entries.{
  entry, without, only, entry_key, node_in-entry, node_in-only, node_in-without, erase_node-only,
  only-without, Distinct-without,
}
use cpp_wtfsc.Demo.LfuCache.Represents.{Rep, id_of, list_of, deref_lem, shrink_kept}

module _ {V : Type 0} where
  deref_gone :
      (nodes : ℕ → List (Node V)) (o : Order) (i : ℕ)
      → ((f : ℕ) → node_in (nodes f) i ≡ none)
      → deref (groups nodes o) i ≡ none
  deref_gone nodes [] i h = refl
  deref_gone nodes ((f, j) ∷ o) i h = rw (h f, deref) (deref_gone nodes o i h)

  -- After a key of the cache was erased its iterator is still in the table: `get` and `put` of that key
  -- are undefined.
  pub erase_dangles :
      (rehashes : ℕ → Bool) (minus_one : V) (c : Cache V) (es : List (Node V))
      → Rep c es
      → 0 < c.capacity
      → (key : ℕ) (n : Node V) → entry es key ≡ some n
      → (c' : Cache V) × (erase c key ≡ some c')
        × (get rehashes minus_one c' key ≡ none)
        × ((val : V) → put rehashes c' key val ≡ none)
  unfolding erase get put
  erase_dangles rehashes minus_one c es v room key n e =
      let open_cache : (c.capacity == 0) ≡ false = ground arith in
      let (i, f) = list_of v key n e in
      let rest = only (without es key) n.freq in
      let c' = shrink c i n.freq rest in
      let erased : erase_node (only es n.freq) n.id ≡ some rest =
        erase_node-only es n.id n v.distinct (node_in-entry es key n v.distinct e)
        ∙ ap (λ k. some (only (without es k) n.freq)) (entry_key es key n e) in
      let (o, lists) = shrink-Lists v.lists n.freq i rest f in
      let (kept, fresh, same) = shrink_kept c i n.freq rest in
      let gone : (g : ℕ) → node_in (change (only es) n.freq rest g) n.id ≡ none = λ g. ground (
        arith,
        only-without es key g n e,
        node_in-without es key n v.distinct e,
        node_in-only (without es key) g n.id (Distinct-without es key v.distinct),
      ) in
      let dangling : deref c'.freq_list n.id ≡ none =
        ap (λ l. deref l n.id) lists.shape
        ∙ deref_gone (change (only es) n.freq rest) o n.id gone in
      let found : find c'.key_table key ≡ some n.id =
        ap (λ t. find t key) kept ∙ v.keys key ∙ ap id_of e in
      let open_cache' : (c'.capacity == 0) ≡ false = ap (λ k. k == 0) same ∙ open_cache in
      (
        c',
        rw (open_cache, v.keys key, e)
            (rw
              (
                deref_lem v key n e,
                v.lists.freqs n.freq ∙ f,
                nodes_at_lem v.lists n.freq i f,
                erased,
              )
              refl),
        rw (open_cache', found, dangling) refl,
        λ val. rw (open_cache', found, dangling) refl,
      )
