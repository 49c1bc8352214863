-- ===== src/LatchFree/Queue/Invariant.antt =====
-- What one thread that pushes and one that pops keep in src/latch-free/queue.cpp.
use cpp_wtfsc.Base.{
  ℕ, ◌≡◌, ◌<◌, ◌≤◌, refl, ap, ◌∙◌, Bool, true, false, List, [], ◌∷◌, ◌++◌, Option, none, some,
  arith,
}
use cpp_wtfsc.LatchFree.Queue.{Node, Producer, Consumer, System}

abbrev pub is_some : {B : Type 0} → Option B → Bool
is_some none = false
is_some (some b) = true

module _ {A : Type 0} where
  abbrev pub value_at : Option (Node A) → Option A
  value_at none = none
  value_at (some node) = some node.value

  abbrev pub next_at : Option (Node A) → Option ℕ
  next_at none = none
  next_at (some node) = node.next

  -- The nodes from `a` on, before `b`, hold these values; positions grow along them.
  abbrev pub Seg : (ℕ → Option (Node A)) → (ℕ → ℕ) → ℕ → List A → ℕ → Type 0
  Seg nodes pos a [] b = a ≡ b
  Seg nodes pos a (x ∷ xs) b =
      (n : ℕ) × (nodes a ≡ some (record { value = x; next = some n }))
      × (pos a < pos n)
      × Seg nodes pos n xs b

  abbrev pub New : System A → (ℕ → ℕ) → ℕ → Type 0
  New s pos a = (is_some (s.nodes a) ≡ true) × (pos s.tail < pos a)

  abbrev pub Writes : System A → (ℕ → ℕ) → Producer A → Type 0
  Writes s pos Producer.idle = Unit
  Writes s pos (Producer.created x a) = New s pos a
  Writes s pos (Producer.got_tail x a t) = (t ≡ s.tail) × New s pos a
  Writes s pos (Producer.swapped x a t) =
      (t ≡ s.tail) × New s pos a × (value_at (s.nodes s.tail) ≡ some x)
  Writes s pos (Producer.linked x a) =
      New s pos a × (s.nodes s.tail ≡ some (record { value = x; next = some a }))

  -- `flight` is what has left the list and was not yet returned.
  abbrev pub Reads : System A → (ℕ → ℕ) → List A → Consumer A → Type 0
  Reads s pos flight Consumer.idle = flight ≡ []
  Reads s pos flight (Consumer.got_head h) = (flight ≡ []) × (h ≡ s.head)
  Reads s pos flight (Consumer.not_empty h) =
      (flight ≡ []) × (h ≡ s.head) × (pos s.head < pos s.tail)
  Reads s pos flight (Consumer.got_next h n) =
      (flight ≡ []) × (h ≡ s.head) × (pos s.head < pos s.tail) × (next_at (s.nodes h) ≡ some n)
  Reads s pos flight (Consumer.unlinked h) =
      (x : A) × (flight ≡ x ∷ []) × (value_at (s.nodes h) ≡ some x) × (pos h < pos s.head)
  Reads s pos flight (Consumer.copied h x) =
      (flight ≡ x ∷ []) × (is_some (s.nodes h) ≡ true) × (pos h < pos s.head)

  pub record Inv (s : System A) : Type 0 where
    pub pos : ℕ → ℕ
    pub queued : List A
    pub flight : List A
    pub seg : Seg s.nodes pos s.head queued s.tail
    pub tail_there : is_some (s.nodes s.tail) ≡ true
    pub writes : Writes s pos (s.producers 0)
    pub reads : Reads s pos flight (s.consumers 0)
    pub fifo : s.pushed ≡ s.popped ++ (flight ++ queued)

  pub Seg-le :
      (nodes : ℕ → Option (Node A)) (pos : ℕ → ℕ) (a : ℕ) (xs : List A) (b : ℕ)
      → Seg nodes pos a xs b
      → pos a ≤ pos b
  Seg-le nodes pos a [] b e = ground (arith, e)
  Seg-le nodes pos a (x ∷ xs) b (n, f, lt, r) = omega (arith, Seg-le nodes pos n xs b r)

  pub Seg-there :
      (nodes : ℕ → Option (Node A)) (pos : ℕ → ℕ) (a : ℕ) (xs : List A) (b : ℕ)
      → is_some (nodes b) ≡ true
      → Seg nodes pos a xs b
      → is_some (nodes a) ≡ true
  Seg-there nodes pos a [] b h e = rw e h
  Seg-there nodes pos a (x ∷ xs) b h (n, f, lt, r) = rw f refl

  -- Nodes that exist keep their positions, and those before the end of the list are not written.
  pub Seg-frame :
      (nodes nodes' : ℕ → Option (Node A)) (pos pos' : ℕ → ℕ) (a : ℕ) (xs : List A) (b : ℕ)
      → ((c : ℕ) → pos a ≤ pos c → pos c < pos b → is_some (nodes c) ≡ true → nodes' c ≡ nodes c)
      → ((c : ℕ) → is_some (nodes c) ≡ true → pos' c ≡ pos c)
      → is_some (nodes b) ≡ true
      → Seg nodes pos a xs b
      → Seg nodes' pos' a xs b
  Seg-frame nodes nodes' pos pos' a [] b same kept h e = e
  Seg-frame nodes nodes' pos pos' a (x ∷ xs) b same kept h (n, f, lt, r) =
      let le = Seg-le nodes pos n xs b r in
      let there : is_some (nodes a) ≡ true = rw f refl in
      let there' = Seg-there nodes pos n xs b h r in
      (
        n,
        same a (omega arith) (omega arith) there ∙ f,
        omega (arith, kept a there, kept n there'),
        Seg-frame nodes nodes' pos pos' n xs b (λ c g. same c (omega arith)) kept h r,
      )

  pub Seg-snoc :
      (nodes : ℕ → Option (Node A)) (pos : ℕ → ℕ) (a : ℕ) (xs : List A) (b n : ℕ) (x : A)
      → Seg nodes pos a xs b
      → nodes b ≡ some (record { value = x; next = some n })
      → pos b < pos n
      → Seg nodes pos a (xs ++ x ∷ []) n
  Seg-snoc nodes pos a [] b n x e f lt = (n, ap nodes e ∙ f, ground (arith, e, lt), refl)
  Seg-snoc nodes pos a (y ∷ xs) b n x (m, g, lt', r) f lt =
      (m, g, lt', Seg-snoc nodes pos m xs b n x r f lt)
