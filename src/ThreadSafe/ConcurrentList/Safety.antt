-- ===== src/ThreadSafe/ConcurrentList/Safety.antt =====
-- What holds in every state that threads reach together in src/thread-safe/list.cpp.
use cpp_wtfsc.Base.{ℕ, ◌≡◌, ◌≢◌, refl, Bool, true, false, some, arith}
use cpp_wtfsc.ThreadSafe.ConcurrentList.{Task, Thread, System, Reach}
use cpp_wtfsc.ThreadSafe.ConcurrentList.Invariant.{next_of, is_some, detached, holds, Relies}
use cpp_wtfsc.ThreadSafe.ConcurrentList.Links.{locked_there, value_there}
use cpp_wtfsc.ThreadSafe.ConcurrentList.Keeps.{Reach-Inv}

module _ {A : Type 0} where
  has_lock :
      (s : System A) (i a : ℕ) (t : Thread A) → Relies s i t → holds t a ≡ true → s.locks a ≡ some i
  has_lock s i a Thread.idle r e = absurd (ground (arith, e))
  has_lock s i a (Thread.at task c) r e = ground (arith, r, e)
  has_lock s i a (Thread.reached task c n) r e = ground (arith, r, e)
  has_lock s i a (Thread.both task c n) r e = ground (arith, r, e)
  has_lock s i a (Thread.visiting task n) r e = ground (arith, r, e)
  has_lock s i a (Thread.unlinked p c old) r e = ground (arith, r, e)
  has_lock s i a (Thread.retired p c old) r e = ground (arith, r, e)
  has_lock s i a (Thread.done o) r e = absurd (ground (arith, e))

  -- In every state that any threads reach together, a node that a thread works on is locked by that
  -- thread alone and is not deleted, and a node whose lock it waits for is not deleted either.
  pub nodes_locked :
      {s : System A}
      → Reach s
      → (i a : ℕ)
      → (holds (s.threads i) a ≡ true
          → (is_some (s.nodes a) ≡ true) × ((j : ℕ) → holds (s.threads j) a ≡ true → i ≡ j))
        × ((task : Task A) (cur : ℕ)
            → s.threads i ≡ Thread.reached task cur a
            → is_some (s.nodes a) ≡ true)
  nodes_locked {s} r i a =
      let v = Reach-Inv r in
      (
        λ h.
            let mine = has_lock s i a (s.threads i) (v.relies i) h in
            (
              locked_there v i a mine,
              λ j h'. ground (arith, mine, has_lock s j a (s.threads j) (v.relies j) h'),
            ),
        λ task cur e.
            let relies : Relies s i (Thread.reached task cur a) = rw e at (v.relies i) in
            value_there (s.nodes a) (v.linked cur a relies.1).0,
      )

  -- When a thread is about to delete a node, no other thread holds its mutex, waits for it or is about
  -- to delete it too, and no node leads to it.
  pub delete_unseen :
      {s : System A}
      → Reach s
      → (i : ℕ) (p : A → Bool) (cur old : ℕ) → s.threads i ≡ Thread.retired p cur old
      → ((j : ℕ)
          → (holds (s.threads j) old ≡ false)
            × ((task : Task A) (c : ℕ) → s.threads j ≢ Thread.reached task c old)
            × (detached (s.threads j) ≡ some old → i ≡ j))
        × ((a : ℕ) → next_of (s.nodes a) ≢ some old)
  delete_unseen {s} r i p cur old e =
      let v = Reach-Inv r in
      let relies : Relies s i (Thread.retired p cur old) = rw e at (v.relies i) in
      let gone : detached (s.threads i) ≡ some old = rw e refl in
      (
        λ j. (
          ground (arith, relies.2, has_lock s j old (s.threads j) (v.relies j)),
          λ task c f.
              let waits : Relies s j (Thread.reached task c old) = rw f at (v.relies j) in
              (v.none_before i c old gone).0 waits.1,
          λ d. v.detached_once i j old gone d,
        ),
        λ a. (v.none_before i a old gone).0,
      )
