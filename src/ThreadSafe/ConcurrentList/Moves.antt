-- ===== src/ThreadSafe/ConcurrentList/Moves.antt =====
-- Steps of src/thread-safe/list.cpp that leave the list's links as they are keep the invariant.
use cpp_wtfsc.Base.{
  ℕ, ◌≡◌, ◌≢◌, refl, sym, ◌∙◌, true, Bool-cases, inl, inr, Option, none, some, ◌==◌, ==_iff, arith,
}
use cpp_wtfsc.ThreadSafe.ConcurrentList.{Node, Thread, System, write}
use cpp_wtfsc.ThreadSafe.ConcurrentList.Invariant.{
  next_of, is_some, has_value, detached, holds, Relies, Inv,
}

module _ {A : Type 0} where
  pub Relies-frame :
      (s s' : System A) (j : ℕ) (t : Thread A)
      → ((a : ℕ) → s.locks a ≡ some j → s'.locks a ≡ some j)
      → ((a : ℕ) → detached t ≡ some a → s.locks a ≡ none → s'.locks a ≡ none)
      → ((a : ℕ) → s.locks a ≡ some j → is_some (s.nodes a) ≡ true → is_some (s'.nodes a) ≡ true)
      → ((a : ℕ) → detached t ≡ some a → is_some (s.nodes a) ≡ true → is_some (s'.nodes a) ≡ true)
      → ((a n : ℕ)
          → s.locks a ≡ some j
          → next_of (s.nodes a) ≡ some n
          → next_of (s'.nodes a) ≡ some n)
      → ((a : ℕ)
          → s.locks a ≡ some j
          → has_value (s.nodes a) ≡ true
          → has_value (s'.nodes a) ≡ true)
      → Relies s j t
      → Relies s' j t
  Relies-frame s s' j Thread.idle l f e o x v r = tt
  Relies-frame s s' j (Thread.at task c) l f e o x v r = (l c r.0, e c r.0 r.1)
  Relies-frame s s' j (Thread.reached task c n) l f e o x v r = (l c r.0, x c n r.0 r.1)
  Relies-frame s s' j (Thread.both task c n) l f e o x v r = (l c r.0, x c n r.0 r.1, l n r.2)
  Relies-frame s s' j (Thread.visiting task n) l f e o x v r = (l n r.0, v n r.0 r.1, r.2)
  Relies-frame s s' j (Thread.unlinked p c a) l f e o x v r =
      (l c r.0, e c r.0 r.1, l a r.2, o a refl r.3, r.4)
  Relies-frame s s' j (Thread.retired p c a) l f e o x v r =
      (l c r.0, e c r.0 r.1, f a refl r.2, o a refl r.3)
  Relies-frame s s' j (Thread.done r') l f e o x v r = tt

  -- What is true of the new thread at `i` and of the others is true of all.
  pub split :
      (P : ℕ → Thread A → Type 0) (threads : ℕ → Thread A) (i : ℕ) (t : Thread A)
      → P i t
      → ((j : ℕ) → i ≢ j → P j (threads j))
      → (j : ℕ) → P j (write threads i t j)
  split P threads i t mine others j = elim (Bool-cases (i == j)) [
    | inl e ↦ rw e (rw ((==_iff i j).0 e) at mine)
    | inr e ↦ rw e (others j (λ q. ground (arith, e, q)))
  ]

  pub detached_before :
      (threads : ℕ → Thread A) (i : ℕ) (t : Thread A)
      → ((a : ℕ) → detached t ≡ some a → detached (threads i) ≡ some a)
      → (j a : ℕ) → detached (write threads i t j) ≡ some a
      → detached (threads j) ≡ some a
  detached_before threads i t old j a =
      split (λ k u. detached u ≡ some a → detached (threads k) ≡ some a) threads i t (old a)
        (λ k ne e. e) j

  -- Thread `i` goes on to `t`, and changes at most its own locks and values of nodes.
  pub Inv-move :
      {s : System A}
      → Inv s
      → (i : ℕ) (t : Thread A) (nodes : ℕ → Option (Node A)) (locks : ℕ → Option ℕ)
      → ((a : ℕ) → next_of (nodes a) ≡ next_of (s.nodes a))
      → ((a : ℕ) → is_some (nodes a) ≡ is_some (s.nodes a))
      → ((a : ℕ) → has_value (nodes a) ≡ has_value (s.nodes a))
      → ((a j : ℕ) → i ≢ j → s.locks a ≡ some j → locks a ≡ some j)
      → ((a j : ℕ) → i ≢ j → locks a ≡ some j → s.locks a ≡ some j)
      → ((a j : ℕ) → i ≢ j → detached (s.threads j) ≡ some a → s.locks a ≡ none → locks a ≡ none)
      → ((a : ℕ) → detached t ≡ some a → detached (s.threads i) ≡ some a)
      → ((a : ℕ) → locks a ≡ some i → holds t a ≡ true)
      → Relies (record { nodes = nodes; locks = locks; threads = write s.threads i t }) i t
      → Inv (record { nodes = nodes; locks = locks; threads = write s.threads i t })
  Inv-move {s} v i t nodes locks next there value kept kept' free old own mine =
      let from = detached_before s.threads i t old in
      record {
        head_there = there 0 ∙ v.head_there;
        linked = λ a n e. let (w, p) = v.linked a n (sym (next a) ∙ e) in (value n ∙ w, p);
        one_before = λ a b n e f. v.one_before a b n (sym (next a) ∙ e) (sym (next b) ∙ f);
        rank = v.rank;
        falls = λ a n e. v.falls a n (sym (next a) ∙ e);
        relies =
            split (Relies (record { nodes = nodes; locks = locks; threads = write s.threads i t }))
              s.threads i t mine
              λ j ne.
                Relies-frame s
                  (record { nodes = nodes; locks = locks; threads = write s.threads i t }) j
                  (s.threads j) (λ a. kept a j ne) (λ a. free a j ne) (λ a h e. there a ∙ e)
                  (λ a h e. there a ∙ e) (λ a n h e. next a ∙ e) (λ a h e. value a ∙ e)
                  (v.relies j);
        none_before = λ j a b e.
            let (n, p) = v.none_before j a b (from j b e) in (λ f. n (sym (next a) ∙ f), p);
        detached_once = λ j k a e f. v.detached_once j k a (from j a e) (from k a f);
        owned = λ a.
            split (λ j u. locks a ≡ some j → holds u a ≡ true) s.threads i t (own a)
              (λ j ne e. v.owned a j (kept' a j ne e));
      }

  module _ {s : System A} (v : Inv s) (i : ℕ) (t : Thread A) where
    abbrev goes : (ℕ → Option ℕ) → System A
    goes locks = record { nodes = s.nodes; locks = locks; threads = write s.threads i t }

    pub Inv-stay :
        ((a : ℕ) → detached t ≡ some a → detached (s.threads i) ≡ some a)
        → ((a : ℕ) → holds (s.threads i) a ≡ true → holds t a ≡ true)
        → Relies (goes s.locks) i t
        → Inv (goes s.locks)
    Inv-stay old own mine =
        Inv-move v i t s.nodes s.locks (λ a. refl) (λ a. refl) (λ a. refl) (λ a j ne e. e)
          (λ a j ne e. e) (λ a j ne d e. e) old (λ a e. own a (v.owned a i e)) mine

    pub Inv-release :
        (c : ℕ)
        → s.locks c ≡ some i
        → ((a : ℕ) → detached t ≡ some a → detached (s.threads i) ≡ some a)
        → ((a : ℕ) → c ≢ a → holds (s.threads i) a ≡ true → holds t a ≡ true)
        → Relies (goes (write s.locks c none)) i t
        → Inv (goes (write s.locks c none))
    Inv-release c h old own mine =
        Inv-move v i t s.nodes (write s.locks c none) (λ a. refl) (λ a. refl) (λ a. refl)
          (λ a j ne e. ground (arith, h, e, ne)) (λ a j ne e. ground (arith, e))
          (λ a j ne d e. ground (arith, e)) old (λ a e. ground (arith, e, v.owned a i, own a)) mine

    pub Inv-acquire :
        (c : ℕ)
        → s.locks c ≡ none
        → ((j : ℕ) → detached (s.threads j) ≢ some c)
        → ((a : ℕ) → detached t ≡ some a → detached (s.threads i) ≡ some a)
        → holds t c ≡ true
        → ((a : ℕ) → holds (s.threads i) a ≡ true → holds t a ≡ true)
        → Relies (goes (write s.locks c (some i))) i t
        → Inv (goes (write s.locks c (some i)))
    Inv-acquire c h apart old new own mine =
        Inv-move v i t s.nodes (write s.locks c (some i)) (λ a. refl) (λ a. refl) (λ a. refl)
          (λ a j ne e. ground (arith, h, e, ne)) (λ a j ne e. ground (arith, e, ne))
          (λ a j ne d e. ground (arith, e, d, apart j)) old
          (λ a e. ground (arith, e, v.owned a i, own a)) mine
