-- ===== src/ThreadSafe/Queue/Dummy.antt =====
-- `DummyQueue` of src/thread-safe/queue.cpp as a sequence of values.
use cpp_wtfsc.Base.{
  ℕ, zero, suc, ◌+◌, ◌≡◌, refl, sym, ap, ap₂, ◌∙◌, false, List, [], ◌∷◌, ◌++◌, Option, none, some,
  ◌==◌, length, set, replicate, arith, append_assoc, length-append, length-replicate,
}
use cpp_wtfsc.Base.Arrays.{get_elem?-append_middle, set-append_middle}
use cpp_wtfsc.ThreadSafe.Queue.{
  node_at, DummyNode, DummyQueue, blank, init, dummy_push, is_at, pop_head, dummy_try_pop,
}

module _ {N : Type 0} where
  pub node_middle :
      (pre : List (Option N)) (n : N) (post : List (Option N)) (i : ℕ)
      → length pre ≡ i
      → node_at (pre ++ some n ∷ post) i ≡ some n
  node_middle pre n post i e = rw (sym e, get_elem?-append_middle pre (some n) post) refl

  pub set_middle :
      (pre : List (Option N)) (n n' : Option N) (post : List (Option N)) (i : ℕ)
      → length pre ≡ i
      → set (pre ++ n ∷ post) i n' ≡ pre ++ n' ∷ post
  set_middle pre n n' post i e = rw (sym e) (set-append_middle pre n n' post)

module _ {A : Type 0} where
  -- The nodes from address `b` on that hold `xs`, each linked to the next.
  abbrev pub linked : ℕ → List A → List (Option (DummyNode A))
  linked b [] = []
  linked b (x ∷ xs) = some (record { value = some x; link = some (b + 1) }) ∷ linked (b + 1) xs

  -- After `h` freed nodes come those that hold `xs`, and a blank one.
  abbrev pub layout : ℕ → List A → List (Option (DummyNode A))
  layout h xs = replicate h none ++ (linked h xs ++ some blank ∷ [])

  pub record Holds (q : DummyQueue A) (xs : List A) : Type 0 where
    pub first : ℕ
    pub heap_is : q.heap ≡ layout first xs
    pub head_is : q.head ≡ some first
    pub tail_is : q.tail ≡ first + length xs

  length-linked : (b : ℕ) (xs : List A) → length (linked b xs) ≡ length xs
  length-linked b [] = refl
  length-linked b (x ∷ xs) = ap suc (length-linked (b + 1) xs)

  linked-append :
      (b : ℕ) (xs : List A) (x : A)
      → linked b (xs ++ x ∷ [])
        ≡ linked b xs ++ some (record { value = some x; link = some (b + length xs + 1) }) ∷ []
  linked-append b [] x = let e : b + 0 + 1 ≡ b + 1 = omega arith in rw e refl
  linked-append b (y ∷ xs) x =
      let e : b + 1 + length xs + 1 ≡ b + suc (length xs) + 1 = omega arith in
      ap (◌∷◌ (some (record { value = some y; link = some (b + 1) }))) (
        linked-append (b + 1) xs x
        ∙ ap (λ n. linked (b + 1) xs ++ some (record { value = some x; link = some n }) ∷ []) e)

  shift :
      (h : ℕ) (rest : List (Option (DummyNode A)))
      → replicate h none ++ none ∷ rest ≡ none ∷ (replicate h none ++ rest)
  shift zero rest = refl
  shift (suc h) rest = ap (◌∷◌ none) (shift h rest)

  length_front : (h : ℕ) (xs : List A) → length (replicate h none ++ linked h xs) ≡ h + length xs
  length_front h xs =
      length-append (replicate h none) (linked h xs)
      ∙ ap₂ ◌+◌ (length-replicate h none) (length-linked h xs)

  pub init-Holds : Holds init []
  unfolding init
  init-Holds = record { first = 0; heap_is = refl; head_is = refl; tail_is = refl }

  -- On a queue whose nodes hold `xs`, `push` is defined, and the value comes last.
  pub dummy_push_lem :
      (q : DummyQueue A) (xs : List A) (x : A) (h : Holds q xs)
      → (q' : DummyQueue A) × (dummy_push q x ≡ some q')
        × (h' : Holds q' (xs ++ x ∷ [])) × (h'.first ≡ h.first)
  unfolding dummy_push
  dummy_push_lem q xs x h =
      let pre = replicate h.first none ++ linked h.first xs in
      let packed : q.heap ≡ pre ++ some blank ∷ [] =
        h.heap_is
        ∙ sym (append_assoc (replicate h.first none) (linked h.first xs) (some blank ∷ [])) in
      let split : q.heap ++ some blank ∷ [] ≡ pre ++ (some blank ∷ (some blank ∷ [])) =
        ap (λ l. l ++ some blank ∷ []) packed
        ∙ append_assoc pre (some blank ∷ []) (some blank ∷ []) in
      let long : length pre ≡ h.first + length xs = length_front h.first xs in
      let here : length pre ≡ q.tail = long ∙ sym h.tail_is in
      let size : length q.heap ≡ h.first + length xs + 1 =
        ap length packed ∙ length-append pre (some blank ∷ []) ∙ omega arith in
      let last : Option (DummyNode A) =
        some (record { value = some x; link = some (h.first + length xs + 1) }) in
      let made : pre ++ (last ∷ (some blank ∷ [])) ≡ layout h.first (xs ++ x ∷ []) =
        append_assoc (replicate h.first none) (linked h.first xs) (last ∷ (some blank ∷ []))
        ∙ ap (λ l. replicate h.first none ++ l)
            (sym (append_assoc (linked h.first xs) (last ∷ []) (some blank ∷ []))
              ∙ ap (λ l. l ++ some blank ∷ []) (sym (linked-append h.first xs x))) in
      (
        record {
          heap = layout h.first (xs ++ x ∷ []);
          head = q.head;
          tail = h.first + length xs + 1;
        },
        rw
            (
              size,
              split,
              node_middle pre blank (some blank ∷ []) q.tail here,
              set_middle pre (some blank) last (some blank ∷ []) q.tail here,
              made,
            )
            refl,
        record {
          first = h.first;
          heap_is = refl;
          head_is = h.head_is;
          tail_is = let l = length-append xs (x ∷ []) in omega arith;
        },
        refl,
      )

  pub is_at_first :
      (q : DummyQueue A) (xs : List A) (h : Holds q xs) → is_at q.head q.tail ≡ (length xs == 0)
  unfolding is_at
  is_at_first q xs h = rw (h.head_is, h.tail_is) (ground arith)

  -- `pop_head` on a queue with a value returns the first one.
  pub pop_head_lem :
      (q : DummyQueue A) (x : A) (xs : List A)
      → Holds q (x ∷ xs)
      → (q' : DummyQueue A) × (pop_head q ≡ some (some x, q')) × Holds q' xs
  unfolding pop_head
  pop_head_lem q x xs h =
      let node : DummyNode A = record { value = some x; link = some (h.first + 1) } in
      let rest = linked (h.first + 1) xs ++ some blank ∷ [] in
      let at = length-replicate {A = Option (DummyNode A)} h.first none in
      (
        record {
          heap = none ∷ (replicate h.first none ++ rest);
          head = some (h.first + 1);
          tail = q.tail;
        },
        rw
            (
              h.head_is,
              h.heap_is,
              node_middle (replicate h.first none) node rest h.first at,
              set_middle (replicate h.first none) (some node) none rest h.first at,
              shift h.first rest,
            )
            refl,
        record {
          first = suc h.first;
          heap_is =
              let e : h.first + 1 ≡ suc h.first = omega arith in
              ap (λ n. none ∷ (replicate h.first none ++ (linked n xs ++ some blank ∷ []))) e;
          head_is = let e : h.first + 1 ≡ suc h.first = omega arith in ap some e;
          tail_is = let t = h.tail_is in omega arith;
        },
      )

  -- On a queue whose nodes hold some values `try_pop` frees the first node and returns its value; on one
  -- that holds none it returns nothing and leaves the queue as it is.
  pub dummy_try_pop_lem :
      (q : DummyQueue A)
      → (Holds q [] → dummy_try_pop q ≡ some (none, q))
        × ((x : A) (xs : List A)
            → Holds q (x ∷ xs)
            → (q' : DummyQueue A) × (dummy_try_pop q ≡ some (some x, q')) × Holds q' xs)
  unfolding dummy_try_pop
  dummy_try_pop_lem q = (
    λ h. rw (is_at_first q [] h) refl,
    λ x xs h.
        let (q', e, h') = pop_head_lem q x xs h in
        let more : is_at q.head q.tail ≡ false = is_at_first q (x ∷ xs) h ∙ ground arith in
        (q', rw more e, h'),
  )
