-- ===== src/ThreadSafe/Queue/Concurrent.antt =====
-- `ConcurrentQueue` of src/thread-safe/queue.cpp. Each step is one critical section: a `push` under
-- `tail_mutex_`, or what a thread that holds `head_mutex_` does next. `try_pop` and `wait_and_pop` run
-- the same steps: a look at the tail, and then either nothing, to answer `nullptr` or to wait, or
-- `pop_head`. The memory is sequentially consistent, as the mutexes make it.
use cpp_wtfsc.Base.{
  ℕ, ◌≤◌, ◌≡◌, refl, sym, ap, ◌∙◌, true, false, List, [], ◌∷◌, ◌++◌, Option, some, ◌==◌, length,
  arith, append_assoc, length-append,
}
use cpp_wtfsc.ThreadSafe.Queue.{DummyQueue, init, dummy_push, is_at, pop_head}
use cpp_wtfsc.ThreadSafe.Queue.Dummy.{Holds, init-Holds, dummy_push_lem, pop_head_lem}

-- What the holder of `head_mutex_` has done: nothing, or it has the result of `get_tail`.
pub data Popper : Type 0 where
  outside : Popper
  saw_tail : ℕ → Popper

-- The queue, and what was pushed and popped so far, oldest first.
pub record System (A : Type 0) : Type 0 where
  pub queue : DummyQueue A
  pub popper : Popper
  pub pushed : List A
  pub popped : List (Option A)

abbrev pub start : {A : Type 0} → System A
start = record { queue = init; popper = outside; pushed = []; popped = [] }

pub data Step {A : Type 0} (s : System A) : System A → Type 0 where
  push_value :
      {q : DummyQueue A} (x : A)
      → dummy_push s.queue x ≡ some q
      → Step s (record s { queue = q; pushed = s.pushed ++ x ∷ [] })
  get_tail : s.popper ≡ outside → Step s (record s { popper = saw_tail s.queue.tail })
  seen_empty :
      {t : ℕ}
      → s.popper ≡ saw_tail t
      → is_at s.queue.head t ≡ true
      → Step s (record s { popper = outside })
  take_head :
      {t : ℕ} {o : Option A} {q : DummyQueue A}
      → s.popper ≡ saw_tail t
      → is_at s.queue.head t ≡ false
      → pop_head s.queue ≡ some (o, q)
      → Step s (record s { queue = q; popper = outside; popped = s.popped ++ o ∷ [] })

pub data Reach {A : Type 0} : System A → Type 0 where
  begin : Reach start
  step : {s t : System A} → Reach s → Step s t → Reach t

abbrev pub answers : {A : Type 0} → List A → List (Option A)
answers [] = []
answers (x ∷ xs) = some x ∷ answers xs

module _ {A : Type 0} where
  -- What is queued, and how far the last look at the tail lies behind.
  pub record Invariant (s : System A) : Type 0 where
    pub out : List A
    pub queued : List A
    pub holds : Holds s.queue queued
    pub popped_is : s.popped ≡ answers out
    pub pushed_is : s.pushed ≡ out ++ queued
    pub looked : (t : ℕ) → s.popper ≡ saw_tail t → (holds.first ≤ t) × (t ≤ s.queue.tail)

  answers-append : (xs : List A) (x : A) → answers (xs ++ x ∷ []) ≡ answers xs ++ some x ∷ []
  answers-append [] x = refl
  answers-append (y ∷ xs) x = ap (◌∷◌ (some y)) (answers-append xs x)

  at_head : (s : System A) (v : Invariant s) (t : ℕ) → is_at s.queue.head t ≡ (v.holds.first == t)
  unfolding is_at
  at_head s v t = rw v.holds.head_is refl

  -- A look that is not at the head means that something is queued.
  something :
      (s : System A) (v : Invariant s) (t : ℕ)
      → s.popper ≡ saw_tail t
      → is_at s.queue.head t ≡ false
      → (x : A) × (xs : List A) × (v.queued ≡ x ∷ xs)
  something s v t p e =
      let (low, high) = v.looked t p in
      let tail = v.holds.tail_is in
      let apart : (v.holds.first == t) ≡ false = sym (at_head s v t) ∙ e in
      first_of v.queued (ground arith)
    where
      first_of : (l : List A) → 1 ≤ length l → (x : A) × (xs : List A) × (l ≡ x ∷ xs)
      first_of [] h = absurd (omega arith)
      first_of (x ∷ xs) h = (x, xs, refl)

  keeps_push :
      (s : System A) (v : Invariant s) (q : DummyQueue A) (x : A)
      → dummy_push s.queue x ≡ some q
      → Invariant (record s { queue = q; pushed = s.pushed ++ x ∷ [] })
  keeps_push s v q x e =
      let (q', f, h', same_first) = dummy_push_lem s.queue v.queued x v.holds in
      let same : q' ≡ q = ground (arith, e, f) in
      let made : Invariant (record s { queue = q'; pushed = s.pushed ++ x ∷ [] }) = record {
        out = v.out;
        queued = v.queued ++ x ∷ [];
        holds = h';
        popped_is = v.popped_is;
        pushed_is = ap (λ l. l ++ x ∷ []) v.pushed_is ∙ append_assoc v.out v.queued (x ∷ []);
        looked = λ t p.
            let (low, high) = v.looked t p in
            let old = v.holds.tail_is in
            let now = h'.tail_is in
            let l = length-append v.queued (x ∷ []) in (omega arith, omega arith);
      } in
      rw same at made

  keeps_take :
      (s : System A) (v : Invariant s) (t : ℕ) (o : Option A) (q : DummyQueue A)
      → s.popper ≡ saw_tail t
      → is_at s.queue.head t ≡ false
      → pop_head s.queue ≡ some (o, q)
      → Invariant (record s { queue = q; popper = outside; popped = s.popped ++ o ∷ [] })
  keeps_take s v t o q p e f =
      let (x, xs, more) = something s v t p e in
      let (q', g, h') = pop_head_lem s.queue x xs (rw more at v.holds) in
      let same : q' ≡ q = ground (arith, f, g) in
      let same_answer : o ≡ some x = ground (arith, f, g) in
      record {
        out = v.out ++ x ∷ [];
        queued = xs;
        holds = rw same at h';
        popped_is =
            rw same_answer (ap (λ l. l ++ some x ∷ []) v.popped_is ∙ sym (answers-append v.out x));
        pushed_is = v.pushed_is ∙ ap (λ l. v.out ++ l) more ∙ sym (append_assoc v.out (x ∷ []) xs);
        looked = λ t' p'. absurd (ground (arith, p'));
      }

  keeps : {s t : System A} → Invariant s → Step s t → Invariant t
  keeps {s} v (push_value {q} x e) = keeps_push s v q x e
  keeps {s} v (get_tail p) = record {
    out = v.out;
    queued = v.queued;
    holds = v.holds;
    popped_is = v.popped_is;
    pushed_is = v.pushed_is;
    looked = λ t p'.
        let tail = v.holds.tail_is in
        let same : s.queue.tail ≡ t = ground (arith, p') in (omega arith, omega arith);
  }
  keeps {s} v (seen_empty p e) = record {
    out = v.out;
    queued = v.queued;
    holds = v.holds;
    popped_is = v.popped_is;
    pushed_is = v.pushed_is;
    looked = λ t' p'. absurd (ground (arith, p'));
  }
  keeps {s} v (take_head {t} {o} {q} p e f) = keeps_take s v t o q p e f

  reach-Invariant : {s : System A} → Reach s → Invariant s
  reach-Invariant begin = record {
    out = [];
    queued = [];
    holds = init-Holds;
    popped_is = refl;
    pushed_is = refl;
    looked = λ t p. absurd (ground (arith, p));
  }
  reach-Invariant (step r e) = keeps (reach-Invariant r) e

  -- First in, first out, under every interleaving of pushes and pops: every answer holds a value, and
  -- the values popped, followed by those that are queued, are the values pushed, in order.
  pub concurrent_fifo :
      (s : System A)
      → Reach s
      → (out queued : List A) × (s.popped ≡ answers out)
        × (s.pushed ≡ out ++ queued)
        × Holds s.queue queued
  concurrent_fifo s r =
      let v = reach-Invariant r in (v.out, v.queued, v.popped_is, v.pushed_is, v.holds)

  -- In every reachable state a push touches live nodes only, and so does the `pop_head` of a thread
  -- that has seen a tail other than the head, also when values were pushed since its look.
  concurrent_no_fault :
      (s : System A)
      → Reach s
      → ((x : A) → (q : DummyQueue A) × (dummy_push s.queue x ≡ some q))
        × ((t : ℕ)
            → s.popper ≡ saw_tail t
            → is_at s.queue.head t ≡ false
            → (x : A) × (q : DummyQueue A) × (pop_head s.queue ≡ some (some x, q)))
  concurrent_no_fault s r =
      let v = reach-Invariant r in
      (
        λ x. let (q, e, _, _) = dummy_push_lem s.queue v.queued x v.holds in (q, e),
        λ t p e.
            let (x, xs, more) = something s v t p e in
            let (q, f, _) = pop_head_lem s.queue x xs (rw more at v.holds) in (x, q, f),
      )
