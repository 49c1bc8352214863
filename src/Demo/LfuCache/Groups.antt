-- ===== src/Demo/LfuCache/Groups.antt =====
-- The list of lists of src/demo/lfu.cpp, described by the frequencies and numbers of its lists in order,
-- and by the nodes of each frequency.
use cpp_wtfsc.Base.{ℕ, ◌≡◌, refl, List, [], ◌∷◌, none, some, if◌then◌else◌, ◌==◌, arith}
use cpp_wtfsc.Demo.LfuCache.Orders.{Order, insert_order, Ascends, apart, Absent-none}
use cpp_wtfsc.Demo.LfuCache.{
  Node, Group, find, discard, nodes_at, set_nodes, insert_after, remove_group,
}

abbrev pub change : {B : Type 0} → (ℕ → B) → ℕ → B → ℕ → B
change f a b a' = if a == a' then b else f a'

module _ {V : Type 0} where
  abbrev pub groups : (ℕ → List (Node V)) → Order → List (Group V)
  groups nodes [] = []
  groups nodes ((f, i) ∷ o) = record { id = i; nodes = nodes f } ∷ groups nodes o

  pub nodes_at-groups :
      (nodes : ℕ → List (Node V)) (o : Order) (f i : ℕ)
      → Ascends o
      → find o f ≡ some i
      → nodes_at (groups nodes o) i ≡ some (nodes f)
  nodes_at-groups nodes [] f i a e = absurd (ground (arith, e))
  nodes_at-groups nodes ((j, v) ∷ o) f i (b, a) e =
      ground (arith, e, apart o j v f i b, nodes_at-groups nodes o f i a)

  pub groups-none :
      (nodes : ℕ → List (Node V)) (ns : List (Node V)) (o : Order) (f : ℕ)
      → find o f ≡ none
      → groups (change nodes f ns) o ≡ groups nodes o
  groups-none nodes ns [] f e = refl
  groups-none nodes ns ((j, v) ∷ o) f e = ground (arith, e, groups-none nodes ns o f)

  pub set_nodes-groups :
      (nodes : ℕ → List (Node V)) (ns : List (Node V)) (o : Order) (f i : ℕ)
      → Ascends o
      → find o f ≡ some i
      → set_nodes (groups nodes o) i ns ≡ groups (change nodes f ns) o
  set_nodes-groups nodes ns [] f i a e = absurd (ground (arith, e))
  set_nodes-groups nodes ns ((j, v) ∷ o) f i (b, a) e = ground (
    arith,
    e,
    apart o j v f i b,
    Absent-none o j v j b,
    groups-none nodes ns o j,
    set_nodes-groups nodes ns o f i a,
  )

  pub remove_group-groups :
      (nodes : ℕ → List (Node V)) (o : Order) (f i : ℕ)
      → Ascends o
      → find o f ≡ some i
      → remove_group (groups nodes o) i ≡ groups nodes (discard o f)
  remove_group-groups nodes [] f i a e = absurd (ground (arith, e))
  remove_group-groups nodes ((j, v) ∷ o) f i (b, a) e =
      ground (arith, e, apart o j v f i b, remove_group-groups nodes o f i a)

  pub insert_after-groups :
      (nodes : ℕ → List (Node V)) (ns : List (Node V)) (o : Order) (f f' i i' : ℕ)
      → Ascends o
      → find o f ≡ some i
      → find o f' ≡ none
      → insert_after (groups nodes o) i (record { id = i'; nodes = ns })
        ≡ groups (change nodes f' ns) (insert_order o f f' i')
  insert_after-groups nodes ns [] f f' i i' a e n = absurd (ground (arith, e))
  insert_after-groups nodes ns ((j, v) ∷ o) f f' i i' (b, a) e n = ground (
    arith,
    e,
    n,
    apart o j v f i b,
    groups-none nodes ns o f',
    insert_after-groups nodes ns o f f' i i' a,
  )
