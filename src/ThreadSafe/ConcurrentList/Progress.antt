-- ===== src/ThreadSafe/ConcurrentList/Progress.antt =====
-- No deadlock among the mutexes of src/thread-safe/list.cpp.
use cpp_wtfsc.Base.{
  ℕ, zero, suc, ◌+◌, ◌≡◌, ◌≢◌, ◌<◌, refl, ap, true, Bool-cases, Option-cases, inl, inr, ◌⊎◌, Option,
  none, some, arith,
}
use cpp_wtfsc.ThreadSafe.ConcurrentList.{
  Node, Task, push_front, begin, for_each, find_first_if, remove_if, Thread, System, Step,
  read_next, finish, lock_next, unlock_head, call, found, not_found, keep, unlink, unlock_next,
  delete_next, return, Reach,
}
use cpp_wtfsc.ThreadSafe.ConcurrentList.Invariant.{next_of, is_some, has_value, Relies, Inv}
use cpp_wtfsc.ThreadSafe.ConcurrentList.Keeps.{Reach-Inv}

module _ {A : Type 0} where
  -- The thread, which is in a call, has a step.
  abbrev pub Goes : System A → ℕ → Type 0
  Goes s i = (s.threads i ≢ Thread.idle) × (t : System A) × Step s t × (t.threads i ≢ s.threads i)

  node_of : (o : Option (Node A)) → is_some o ≡ true → (node : Node A) × (o ≡ some node)
  node_of none e = absurd (ground (arith, e))
  node_of (some node) e = (node, refl)

  value_of :
      (o : Option (Node A))
      → has_value o ≡ true
      → (node : Node A) × (x : A) × (o ≡ some node) × (node.value ≡ some x)
  value_of none e = absurd (ground (arith, e))
  value_of (some node) e = elim (Option-cases node.value) [
    | inl q ↦ absurd (ground (arith, e, q))
    | inr (x, q) ↦ (node, x, refl, q)
  ]

  module _ {s : System A} (v : Inv s) (i : ℕ) where
    both_goes :
        (task : Task A) (cur n : ℕ)
        → s.threads i ≡ Thread.both task cur n
        → Relies s i (Thread.both task cur n)
        → Goes s i
    both_goes (for_each f) cur n e r =
        (ground (arith, e), _, unlock_head i e refl, ground (arith, e))
    both_goes (find_first_if p) cur n e r =
        (ground (arith, e), _, unlock_head i e refl, ground (arith, e))
    both_goes (remove_if p) cur n e r =
        let (node, x, g, w) = value_of (s.nodes n) (v.linked cur n r.1).0 in
        elim (Bool-cases (p x)) [
          | inl h ↦
              let (before, f) = node_of (s.nodes cur) (ground (arith, r.1)) in
              (ground (arith, e), _, unlink i e f g w h, ground (arith, e))
          | inr h ↦ (ground (arith, e), _, keep i e g w h, ground (arith, e))
        ]

    visiting_goes :
        (task : Task A) (n : ℕ)
        → s.threads i ≡ Thread.visiting task n
        → Relies s i (Thread.visiting task n)
        → Goes s i
    visiting_goes (for_each f) n e r =
        let (node, x, g, w) = value_of (s.nodes n) r.1 in
        (ground (arith, e), _, call i e g w, ground (arith, e))
    visiting_goes (find_first_if p) n e r =
        let (node, x, g, w) = value_of (s.nodes n) r.1 in
        elim (Bool-cases (p x)) [
          | inl h ↦ (ground (arith, e), _, found i e g w h, ground (arith, e))
          | inr h ↦ (ground (arith, e), _, not_found i e g w h, ground (arith, e))
        ]
    visiting_goes (remove_if p) n e r = absurd (ground (arith, r.2))

    -- A thread that does not wait for a mutex has a step.
    goes :
        (t : Thread A)
        → s.threads i ≡ t
        → Relies s i t
        → (t ≡ Thread.idle)
          ⊎ Goes s i
          ⊎ ((task : Task A) × (cur n : ℕ) × (t ≡ Thread.reached task cur n))
    goes Thread.idle e r = inl refl
    goes (Thread.at task cur) e r =
        let (node, f) = node_of (s.nodes cur) r.1 in
        elim (Option-cases node.next) [
          | inl g ↦ inr (inl (ground (arith, e), _, finish i e f g, ground (arith, e)))
          | inr (n, g) ↦ inr (inl (ground (arith, e), _, read_next i e f g, ground (arith, e)))
        ]
    goes (Thread.reached task cur n) e r = inr (inr (task, cur, n, refl))
    goes (Thread.both task cur n) e r = inr (inl (both_goes task cur n e r))
    goes (Thread.visiting task n) e r = inr (inl (visiting_goes task n e r))
    goes (Thread.unlinked p cur old) e r =
        inr (inl (ground (arith, e), _, unlock_next i e, ground (arith, e)))
    goes (Thread.retired p cur old) e r =
        inr (inl (ground (arith, e), _, delete_next i e, ground (arith, e)))
    goes (Thread.done o) e r = inr (inl (ground (arith, e), _, return i e, ground (arith, e)))

  -- Along the threads that wait for each other the nodes come nearer to the end.
  unblocked :
      {s : System A} (v : Inv s) (k i cur n : ℕ) (task : Task A)
      → s.threads i ≡ Thread.reached task cur n
      → v.rank n < k
      → (j : ℕ) × Goes s j
  unblocked v zero i cur n task e h = absurd (omega arith)
  unblocked {s} v (suc k) i cur n task e h = elim (Option-cases (s.locks n)) [
    | inl f ↦ (i, (ground (arith, e), _, lock_next i e f, ground (arith, e)))
    | inr (j, f) ↦ elim (goes v j (s.threads j) refl (v.relies j)) [
      | inl q ↦ absurd (ground (arith, q, v.owned n j f))
      | inr (inl g) ↦ (j, g)
      | inr (inr (task', c, m, q)) ↦
          let waits : Relies s j (Thread.reached task' c m) = rw q at (v.relies j) in
          let same : c ≡ n = ground (arith, q, v.owned n j f) in
          unblocked v k j c m task' q (omega (arith, v.falls c m waits.1, ap v.rank same))
    ]
  ]

  busy_goes : {s : System A} → Reach s → (i : ℕ) → s.threads i ≢ Thread.idle → (j : ℕ) × Goes s j
  busy_goes {s} r i busy =
      let v = Reach-Inv r in
      elim (goes v i (s.threads i) refl (v.relies i)) [
        | inl q ↦ absurd (busy q)
        | inr (inl g) ↦ (i, g)
        | inr (inr (task, cur, n, q)) ↦ unblocked v (v.rank n + 1) i cur n task q (omega arith)
      ]

  -- Every thread outside a call can begin one, and every `push_front` can be done at once.
  abbrev pub Opens : System A → Type 0
  Opens s =
      ((i : ℕ) (task : Task A)
        → s.threads i ≡ Thread.idle
        → (t : System A) × Step s t × (t.threads i ≡ Thread.at task 0))
      × ((i : ℕ) (x : A) (a : ℕ)
          → s.threads i ≡ Thread.idle
          → s.nodes a ≡ none
          → (t : System A) × Step s t × (next_of (t.nodes 0) ≡ some a))

  opens : {s : System A} → Reach s → s.locks 0 ≡ none → Opens s
  opens {s} r free = (
    λ i task e. (_, begin i task e free, ground arith),
    λ i x a e f.
        let (head, g) = node_of (s.nodes 0) (Inv.head_there (Reach-Inv r)) in
        (_, push_front i x a e f free g, ground arith),
  )

  -- No deadlock, in any state that any threads reach together: if some thread is in a call, then a
  -- thread that is in a call has a step. And threads do not wait for the mutex of `head_` in vain:
  -- either a thread that is in a call has a step, or every thread outside a call can begin one, and
  -- do a `push_front`, at once.
  pub list_progress :
      {s : System A}
      → Reach s
      → ((i : ℕ) → s.threads i ≢ Thread.idle → (j : ℕ) × Goes s j)
        × (((j : ℕ) × Goes s j) ⊎ Opens s)
  list_progress {s} r = (
    λ i busy. busy_goes r i busy,
    elim (Option-cases (s.locks 0)) [
      | inl free ↦ inr (opens r free)
      | inr (i, held) ↦
          let v = Reach-Inv r in
          inl (busy_goes r i (λ idle. ground (arith, idle, v.owned 0 i held)))
    ],
  )
