-- ===== src/ThreadSafe/ConcurrentList/Determined.antt =====
-- A step inside a call of src/thread-safe/list.cpp is determined by the state, so two runs of a call go the
-- same way.
use mathlib.Core.Path.{subst}
use cpp_wtfsc.Base.{
  ℕ, ◌≡◌, refl, sym, ◌∙◌, Option, none, some, ◌>>=◌, if◌then◌else◌, some_inj, arith,
}
use cpp_wtfsc.ThreadSafe.ConcurrentList.{
  for_each, find_first_if, remove_if, Thread, System, write, Step, push_front, begin, read_next,
  finish, lock_next, unlock_head, call, found, not_found, keep, unlink, unlock_next, delete_next,
  return,
}
use cpp_wtfsc.ThreadSafe.ConcurrentList.Contents.{Runs, mover, here, move}

module _ {A : Type 0} where
  -- The state after the next step of thread `i` inside its call, where there is one.
  abbrev next_state : System A → ℕ → Thread A → Option (System A)
  next_state s i Thread.idle = none
  next_state s i (Thread.at task cur) = s.nodes cur >>= λ node. some (elim node.next [
    | none ↦ record s {
      locks = write s.locks cur none;
      threads = write s.threads i (Thread.done none);
    }
    | some n ↦ record s { threads = write s.threads i (Thread.reached task cur n) }
  ])
  next_state s i (Thread.reached task cur n) = some (record s {
    locks = write s.locks n (some i);
    threads = write s.threads i (Thread.both task cur n);
  })
  next_state s i (Thread.both (for_each f) cur n) = some (record s {
    locks = write s.locks cur none;
    threads = write s.threads i (Thread.visiting (for_each f) n);
  })
  next_state s i (Thread.both (find_first_if p) cur n) = some (record s {
    locks = write s.locks cur none;
    threads = write s.threads i (Thread.visiting (find_first_if p) n);
  })
  next_state s i (Thread.both (remove_if p) cur n) = s.nodes n >>= λ node. node.value >>= λ x.
      if p x
      then (s.nodes cur >>= λ before. some (record s {
        nodes =
            write (write s.nodes n (some (record node { next = none }))) cur
              (some (record before { next = node.next }));
        threads = write s.threads i (Thread.unlinked p cur n);
      }))
      else some (record s {
        locks = write s.locks cur none;
        threads = write s.threads i (Thread.at (remove_if p) n);
      })
  next_state s i (Thread.visiting (for_each f) n) = s.nodes n >>= λ node. node.value >>= λ x.
      some (record s {
        nodes = write s.nodes n (some (record node { value = some (f x) }));
        threads = write s.threads i (Thread.at (for_each f) n);
      })
  next_state s i (Thread.visiting (find_first_if p) n) = s.nodes n >>= λ node. node.value >>= λ x.
      some (
        if p x
        then record s {
          locks = write s.locks n none;
          threads = write s.threads i (Thread.done (some x));
        }
        else record s { threads = write s.threads i (Thread.at (find_first_if p) n) })
  next_state s i (Thread.visiting (remove_if p) n) = none
  next_state s i (Thread.unlinked p cur old) = some (record s {
    locks = write s.locks old none;
    threads = write s.threads i (Thread.retired p cur old);
  })
  next_state s i (Thread.retired p cur old) = some (record s {
    nodes = write s.nodes old none;
    threads = write s.threads i (Thread.at (remove_if p) cur);
  })
  next_state s i (Thread.done o) = none

  abbrev Leads : System A → System A → Option ℕ → Type 0
  Leads s t none = Unit
  Leads s t (some i) = next_state s i (s.threads i) ≡ some t

  module _ {s : System A} where
    leads : {t : System A} (e : Step s t) → Leads s t (mover e)
    leads (push_front i x a e f g h) = tt
    leads (begin i task e f) = tt
    leads (read_next i e f g) = rw (e, f, g) refl
    leads (finish i e f g) = rw (e, f, g) refl
    leads (lock_next i e f) = rw e refl
    leads (unlock_head i {task = for_each f} e u) = rw e refl
    leads (unlock_head i {task = find_first_if p} e u) = rw e refl
    leads (unlock_head i {task = remove_if p} e u) = absurd (ground (arith, u))
    leads (call i e f g) = rw (e, f, g) refl
    leads (found i e f g h) = rw (e, f, g, h) refl
    leads (not_found i e f g h) = rw (e, f, g, h) refl
    leads (keep i e f g h) = rw (e, f, g, h) refl
    leads (unlink i e f g h k) = rw (e, g, h, k, f) refl
    leads (unlock_next i e) = rw e refl
    leads (delete_next i e) = rw e refl
    leads (return i e) = tt

  same_step :
      {s t u : System A} (i : ℕ) (e : Step s t) (f : Step s u)
      → mover e ≡ some i
      → mover f ≡ some i
      → t ≡ u
  same_step {s} {t} {u} i e f m n =
      let to_t : Leads s t (some i) = subst (Leads s t) m (leads e) in
      let to_u : Leads s u (some i) = subst (Leads s u) n (leads f) in some_inj (sym to_t ∙ to_u)

  -- What a run to the end of a call has still to do, whatever was done of the call so far.
  pub rest_of :
      {i : ℕ} {s t u : System A} (o : Option A)
      → Runs i s u
      → u.threads i ≡ Thread.done o
      → Runs i s t
      → Runs i t u
  rest_of o r d here = r
  rest_of {i} {s} o here d (move {t = t} e m r) = absurd (
      let go : Leads s t (some i) = subst (Leads s t) m (leads e) in
      let stop : next_state s i (s.threads i) ≡ none = rw d refl in ground (arith, go, stop))
  rest_of {i} {u = u} o (move e m r) d (move f n q) =
      rest_of o (subst (λ k. Runs i k u) (same_step i e f m n) r) d q
