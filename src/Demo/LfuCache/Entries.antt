-- ===== src/Demo/LfuCache/Entries.antt =====
-- The entries of a cache of src/demo/lfu.cpp in the order of their last use, and what a cache that throws
-- out the least frequently used entry does to them.
use cpp_wtfsc.Base.{
  ℕ, ◌+◌, ◌≡◌, ◌≢◌, ◌⊎◌, ◌≤◌, ◌<◌, min, refl, sym, ap, ◌∙◌, Bool-cases, inl, inr, List, [], ◌∷◌,
  Option, none, some, ◌>>=◌, length, if◌then◌else◌, ◌==◌, ==_iff, arith,
}
use cpp_wtfsc.Demo.LfuCache.{Node, node_in, erase_node, last, init_part}

module _ {V : Type 0} where
  abbrev pub entry : List (Node V) → ℕ → Option (Node V)
  entry [] k = none
  entry (n ∷ ns) k = if n.key == k then some n else entry ns k

  abbrev pub without : List (Node V) → ℕ → List (Node V)
  without [] k = []
  without (n ∷ ns) k = if n.key == k then ns else n ∷ without ns k

  -- The entries of one frequency.
  abbrev pub only : List (Node V) → ℕ → List (Node V)
  only [] f = []
  only (n ∷ ns) f = if n.freq == f then n ∷ only ns f else only ns f

  abbrev pub least : List (Node V) → ℕ
  least [] = 0
  least (n ∷ []) = n.freq
  least (n ∷ m ∷ ns) = min n.freq (least (m ∷ ns))

  -- Of the entries that were used least often, the one that was not used for the longest time.
  abbrev pub victim : List (Node V) → Option (Node V)
  victim ns = last (only ns (least ns))

  abbrev pub Distinct : List (Node V) → Type 0
  Distinct [] = Unit
  Distinct (n ∷ ns) = (entry ns n.key ≡ none) × (node_in ns n.id ≡ none) × Distinct ns

  pub entry_key : (ns : List (Node V)) (k : ℕ) (n : Node V) → entry ns k ≡ some n → n.key ≡ k
  entry_key [] k n e = absurd (ground (arith, e))
  entry_key (m ∷ ns) k n e = ground (arith, e, entry_key ns k n)

  pub node_in_id : (ns : List (Node V)) (i : ℕ) (n : Node V) → node_in ns i ≡ some n → n.id ≡ i
  node_in_id [] i n e = absurd (ground (arith, e))
  node_in_id (m ∷ ns) i n e = ground (arith, e, node_in_id ns i n)

  entry_there :
      (ns : List (Node V)) (i : ℕ) (n : Node V) → node_in ns i ≡ some n → entry ns n.key ≢ none
  entry_there [] i n e = absurd (ground (arith, e))
  entry_there (m ∷ ns) i n e = ground (arith, e, entry_there ns i n)

  node_there :
      (ns : List (Node V)) (k : ℕ) (n : Node V) → entry ns k ≡ some n → node_in ns n.id ≢ none
  node_there [] k n e = absurd (ground (arith, e))
  node_there (m ∷ ns) k n e = ground (arith, e, node_there ns k n)

  -- An entry is found by its number too.
  pub node_in-entry :
      (ns : List (Node V)) (k : ℕ) (n : Node V)
      → Distinct ns
      → entry ns k ≡ some n
      → node_in ns n.id ≡ some n
  node_in-entry [] k n d e = absurd (ground (arith, e))
  node_in-entry (m ∷ ns) k n d e =
      ground (arith, e, d.1, node_there ns k n, node_in-entry ns k n d.2)

  pub node_in-only :
      (ns : List (Node V)) (f i : ℕ)
      → Distinct ns
      → node_in (only ns f) i ≡ (node_in ns i >>= λ n. if n.freq == f then some n else none)
  node_in-only [] f i d = refl
  node_in-only (m ∷ ns) f i d = ground (arith, d.1, node_in-only ns f i d.2)

  pub erase_node-only :
      (ns : List (Node V)) (i : ℕ) (n : Node V)
      → Distinct ns
      → node_in ns i ≡ some n
      → erase_node (only ns n.freq) i ≡ some (only (without ns n.key) n.freq)
  erase_node-only [] i n d e = absurd (ground (arith, e))
  erase_node-only (m ∷ ns) i n d e =
      ground (arith, e, d.0, entry_there ns i n, erase_node-only ns i n d.2)

  pub only-without :
      (ns : List (Node V)) (k f : ℕ) (n : Node V)
      → entry ns k ≡ some n
      → n.freq ≢ f
      → only (without ns k) f ≡ only ns f
  only-without [] k f n e ne = absurd (ground (arith, e))
  only-without (m ∷ ns) k f n e ne = ground (arith, e, ne, only-without ns k f n)

  pub entry-without :
      (ns : List (Node V)) (k j : ℕ)
      → Distinct ns
      → entry (without ns k) j ≡ (if k == j then none else entry ns j)
  entry-without [] k j d = ground arith
  entry-without (m ∷ ns) k j d = ground (arith, d.0, entry-without ns k j d.2)

  pub node_in-without-none :
      (ns : List (Node V)) (k i : ℕ) → node_in ns i ≡ none → node_in (without ns k) i ≡ none
  node_in-without-none [] k i e = refl
  node_in-without-none (m ∷ ns) k i e = ground (arith, e, node_in-without-none ns k i)

  pub Distinct-without : (ns : List (Node V)) (k : ℕ) → Distinct ns → Distinct (without ns k)
  Distinct-without [] k d = tt
  Distinct-without (m ∷ ns) k d = elim (Bool-cases (m.key == k)) [
    | inl q ↦ rw q d.2
    | inr q ↦ rw q (
      ground (arith, d.0, entry-without ns k m.key d.2),
      node_in-without-none ns k m.id d.1,
      Distinct-without ns k d.2,
    )
  ]

  pub length-without :
      (ns : List (Node V)) (k : ℕ) (n : Node V)
      → entry ns k ≡ some n
      → length ns ≡ length (without ns k) + 1
  length-without [] k n e = absurd (ground (arith, e))
  length-without (m ∷ ns) k n e = ground (arith, e, length-without ns k n)

  pub only-entry :
      (ns : List (Node V)) (k : ℕ) (n : Node V) → entry ns k ≡ some n → only ns n.freq ≢ []
  only-entry [] k n e = absurd (ground (arith, e))
  only-entry (m ∷ ns) k n e = ground (arith, e, only-entry ns k n)

  pub only_freq :
      (ns : List (Node V)) (f : ℕ) (n : Node V) (rest : List (Node V))
      → only ns f ≡ n ∷ rest
      → n.freq ≡ f
  only_freq [] f n rest e = absurd (ground (arith, e))
  only_freq (m ∷ ns) f n rest e = ground (arith, e, only_freq ns f n rest)

  least-le : (ns : List (Node V)) (f : ℕ) → only ns f ≢ [] → least ns ≤ f
  least-le [] f e = absurd (e refl)
  least-le (n ∷ []) f e = ground (arith, e)
  least-le (n ∷ m ∷ ns) f e = ground (arith, e, least-le (m ∷ ns) f)

  le-least :
      (ns : List (Node V)) (f : ℕ) → ns ≢ [] → ((k : ℕ) → k < f → only ns k ≡ []) → f ≤ least ns
  le-least [] f e h = absurd (e refl)
  le-least (n ∷ []) f e h = ground (arith, h n.freq)
  le-least (n ∷ m ∷ ns) f e h =
      let rest : f ≤ least (m ∷ ns) =
        le-least (m ∷ ns) f (λ q. absurd (ground (arith, q))) (λ k lt. ground (arith, h k lt)) in
      ground (arith, rest, h n.freq)

  pub least_lem :
      (ns : List (Node V)) (f : ℕ)
      → only ns f ≢ []
      → ((k : ℕ) → k < f → only ns k ≡ [])
      → least ns ≡ f
  least_lem ns f e h =
      omega (arith, least-le ns f e, le-least ns f (λ q. e (ap (λ l. only l f) q)) h)

  pub last_there : (ns : List (Node V)) → ns ≢ [] → (n : Node V) × (last ns ≡ some n)
  last_there [] e = absurd (e refl)
  last_there (n ∷ []) e = (n, refl)
  last_there (n ∷ m ∷ ns) e = last_there (m ∷ ns) (λ q. absurd (ground (arith, q)))

  last-cons : (n : Node V) (ns : List (Node V)) → ns ≢ [] → last (n ∷ ns) ≡ last ns
  last-cons n [] e = absurd (e refl)
  last-cons n (m ∷ ns) e = refl

  init_part-cons :
      (n : Node V) (ns : List (Node V)) → ns ≢ [] → init_part (n ∷ ns) ≡ n ∷ init_part ns
  init_part-cons n [] e = absurd (e refl)
  init_part-cons n (m ∷ ns) e = refl

  pub nil-cases : (ns : List (Node V)) → (ns ≡ []) ⊎ (ns ≢ [])
  nil-cases [] = inl refl
  nil-cases (n ∷ ns) = inr (λ q. absurd (ground (arith, q)))

  -- The last entry of a frequency is an entry.
  pub last-only :
      (ns : List (Node V)) (f : ℕ) (n : Node V)
      → Distinct ns
      → last (only ns f) ≡ some n
      → (entry ns n.key ≡ some n)
        × (n.freq ≡ f)
        × (init_part (only ns f) ≡ only (without ns n.key) f)
  last-only [] f n d e = absurd (ground (arith, e))
  last-only (m ∷ ns) f n d e =
      let rec = λ (h : last (only ns f) ≡ some n). last-only ns f n d.2 h in
      elim (Bool-cases (m.freq == f)) [
        | inr q ↦
            let (a, b, c) = rec (rw q at e) in
            (ground (arith, a, d.0), b, ground (arith, q, a, c, d.0))
        | inl q ↦ elim (nil-cases (only ns f)) [
          | inl z ↦
              let same : m ≡ n = ground (arith, (rw (q, z) at e)) in
              rw (← same) (ground arith, (==_iff m.freq f).0 q, ground (arith, q, z))
          | inr z ↦
              let (a, b, c) = rec (sym (last-cons m (only ns f) z) ∙ (rw q at e)) in
              (
                ground (arith, a, d.0),
                b,
                ground (arith, q, a, c, d.0, init_part-cons m (only ns f) z),
              )
        ]
      ]

  -- The number of an entry that was taken out leads nowhere.
  pub node_in-without :
      (ns : List (Node V)) (k : ℕ) (n : Node V)
      → Distinct ns
      → entry ns k ≡ some n
      → node_in (without ns k) n.id ≡ none
  node_in-without [] k n d e = absurd (ground (arith, e))
  node_in-without (m ∷ ns) k n d e =
      ground (arith, e, d.1, node_there ns k n, node_in-without ns k n d.2)
