-- ===== src/LatchFree/Stack/Linear.antt =====
-- The exchanges of src/latch-free/stack.cpp happen as on a stack.
use cpp_wtfsc.Base.{
  ℕ, zero, suc, ◌≡◌, refl, ap, List, [], ◌∷◌, ◌++◌, Option, none, some, length, get_elem?, arith,
}
use cpp_wtfsc.Base.Arrays.{get_elem?-append_middle}
use cpp_wtfsc.LatchFree.Stack.{
  Node, Event, pushed, popped, Stack, Step, push_load, push_exchange, push_again, pop_load,
  pop_exchange, pop_again, pop_nothing, Reach, begin, step,
}

module _ {A : Type 0} where
  -- The list of values from an address on.
  abbrev pub Chain : List (Node A) → Option ℕ → List A → Type 0
  Chain nodes head [] = head ≡ none
  Chain nodes head (x ∷ xs) =
      (a : ℕ) × (next : Option ℕ) × (head ≡ some a)
      × (get_elem? nodes a ≡ some (record { value = x; next = next }))
      × Chain nodes next xs

  grown :
      (nodes : List (Node A)) (a : ℕ) (node more : Node A)
      → get_elem? nodes a ≡ some node
      → get_elem? (nodes ++ more ∷ []) a ≡ some node
  grown [] a node more e = absurd (ground (arith, e))
  grown (n ∷ nodes) zero node more e = e
  grown (n ∷ nodes) (suc a) node more e = grown nodes a node more e

  Chain-grown :
      (nodes : List (Node A)) (head : Option ℕ) (xs : List A) (more : Node A)
      → Chain nodes head xs
      → Chain (nodes ++ more ∷ []) head xs
  Chain-grown nodes head [] more e = e
  Chain-grown nodes head (x ∷ xs) more (a, next, e, f, rest) =
      (a, next, e, grown nodes a _ more f, Chain-grown nodes next xs more rest)

  -- The stack after some operations, newest first; a pop must answer with the top.
  pub data Runs : List (Event A) → List A → Type 0 where
    nothing_yet : Runs [] []
    after_push :
        {log : List (Event A)} {xs : List A} (x : A) → Runs log xs → Runs (pushed x ∷ log) (x ∷ xs)
    after_pop :
        {log : List (Event A)} {xs : List A} (x : A) → Runs log (x ∷ xs) → Runs (popped x ∷ log) xs

  -- The values in the stack.
  pub record Holds (s : Stack A) : Type 0 where
    pub xs : List A
    pub chain : Chain s.nodes s.head xs
    pub runs : Runs s.log xs

  pops :
      (s : Stack A) (a : ℕ) (node : Node A) (xs : List A)
      → s.head ≡ some a
      → get_elem? s.nodes a ≡ some node
      → Chain s.nodes s.head xs
      → Runs s.log xs
      → (ys : List A) × Chain s.nodes node.next ys × Runs (popped node.value ∷ s.log) ys
  pops s a node [] h e chain runs = absurd (ground (arith, h, chain))
  pops s a node (x ∷ xs) h e (b, next, k, f, rest) runs =
      let same : a ≡ b = ground (arith, h, k) in
      let found : get_elem? s.nodes b ≡ some node = rw same at e in
      let is_node : record { value = x; next = next } ≡ node = ground (arith, f, found) in
      (
        xs,
        rw (ap (λ (n : Node A). n.next) is_node) at rest,
        rw (ap (λ (n : Node A). n.value) is_node) at (after_pop x runs),
      )

  keeps : {s t : Stack A} → Holds s → Step s t → Holds t
  keeps v (push_load i x e) = record { xs = v.xs; chain = v.chain; runs = v.runs }
  keeps {s} v (push_exchange i {x} {next} e h) =
      let node : Node A = record { value = x; next = next } in
      record {
        xs = x ∷ v.xs;
        chain = (
          length s.nodes,
          next,
          refl,
          get_elem?-append_middle s.nodes node [],
          Chain-grown s.nodes next v.xs node (rw h at v.chain),
        );
        runs = after_push x v.runs;
      }
  keeps v (push_again i e) = record { xs = v.xs; chain = v.chain; runs = v.runs }
  keeps v (pop_load i e) = record { xs = v.xs; chain = v.chain; runs = v.runs }
  keeps {s} v (pop_exchange i {a} {node} e h f) =
      let (ys, chain, runs) = pops s a node v.xs h f v.chain v.runs in
      record { xs = ys; chain = chain; runs = runs }
  keeps v (pop_again i e) = record { xs = v.xs; chain = v.chain; runs = v.runs }
  keeps v (pop_nothing i e) = record { xs = v.xs; chain = v.chain; runs = v.runs }

  -- If `head`, which the code does not initialize, happens to start as a null pointer, then in every
  -- state that any threads reach together the exchanges that succeeded are a run of a stack,
  -- each pop answering with the top, and the nodes from `head` on hold what that run leaves.
  pub stack_linear :
      (garbage : Option ℕ) (s : Stack A)
      → garbage ≡ none
      → Reach garbage s
      → (xs : List A) × Chain s.nodes s.head xs × Runs s.log xs
  stack_linear garbage s null r = let v = holds r in (v.xs, v.chain, v.runs)
    where
      holds : {s : Stack A} → Reach garbage s → Holds s
      holds begin = record { xs = []; chain = null; runs = nothing_yet }
      holds (step r e) = keeps (holds r) e
