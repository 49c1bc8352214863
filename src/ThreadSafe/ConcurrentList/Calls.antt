-- ===== src/ThreadSafe/ConcurrentList/Calls.antt =====
-- What the calls of src/thread-safe/list.cpp do to the list, if no other thread disturbs them.
use cpp_wtfsc.Base.{
  ℕ, ◌≡◌, ◌≢◌, refl, ap, ◌∙◌, Bool, Bool-cases, inl, inr, List, [], ◌∷◌, ◌++◌, map, append_assoc,
  Option, none, some, if◌then◌else◌, arith,
}
use cpp_wtfsc.ThreadSafe.ConcurrentList.{
  Node, Task, for_each, find_first_if, remove_if, Thread, System, write, Step, begin, Reach,
}
use cpp_wtfsc.ThreadSafe.ConcurrentList.Invariant.{next_of, Inv}
use cpp_wtfsc.ThreadSafe.ConcurrentList.Keeps.{keeps, Reach-Inv}
use cpp_wtfsc.ThreadSafe.ConcurrentList.Contents.{value_at, Contents, Runs}
use cpp_wtfsc.ThreadSafe.ConcurrentList.Rounds.{
  Runs-append, write_self, Stands, locks_next, finishes,
}
use cpp_wtfsc.ThreadSafe.ConcurrentList.Determined.{rest_of}
use cpp_wtfsc.ThreadSafe.ConcurrentList.Alone.{
  keeps_next, removes_next, calls_next, passes_next, finds_next,
}

module _ {A : Type 0} where
  abbrev pub find : (A → Bool) → List A → Option A
  find p [] = none
  find p (x ∷ xs) = if p x then some x else find p xs

  abbrev pub without : (A → Bool) → List A → List A
  without p [] = []
  without p (x ∷ xs) = if p x then without p xs else x ∷ without p xs

  -- What a call answers on a list of values, and which list it leaves.
  abbrev pub answer : Task A → List A → Option A
  answer (for_each f) xs = none
  answer (find_first_if p) xs = find p xs
  answer (remove_if p) xs = none

  abbrev pub after : Task A → List A → List A
  after (for_each f) xs = map f xs
  after (find_first_if p) xs = xs
  after (remove_if p) xs = without p xs

  -- The state after `begin`: the thread has the lock of `head_`.
  abbrev pub begun : System A → ℕ → Task A → System A
  begun s i task = record s {
    locks = write s.locks 0 (some i);
    threads = write s.threads i (Thread.at task 0);
  }

  -- Thread `i`, which is in a call, comes by its own steps to the end of it, with an answer and a list.
  abbrev pub Ends : ℕ → System A → Option A → List A → Type 0
  Ends i s o xs =
      (u : System A) × Runs i s u
      × (u.threads i ≡ Thread.done o)
      × Contents u.nodes 0 xs
      × ((a : ℕ) → u.locks a ≡ none)

  then-Ends :
      {i : ℕ} {s t : System A} {o : Option A} (xs : List A)
      → Runs i s t
      → Ends i t o xs
      → Ends i s o xs
  then-Ends xs r (u, q, d, c, l) = (u, Runs-append r q, d, c, l)

  regroup :
      {i : ℕ} {s : System A} {o : Option A} (ys : List A) (x : A) (xs : List A)
      → Ends i s o ((ys ++ x ∷ []) ++ xs)
      → Ends i s o (ys ++ x ∷ xs)
  regroup ys x xs e = rw (append_assoc ys (x ∷ []) xs) at e

  for_each-Ends :
      {i : ℕ} (f : A → A) (xs : List A) {s : System A} {cur : ℕ} {ys : List A}
      → Stands i (for_each f) s cur ys xs
      → Ends i s none (ys ++ map f xs)
  for_each-Ends f [] v = finishes v
  for_each-Ends f (x ∷ xs) {ys = ys} v =
      let (t, n, r, w) = locks_next x v in
      let (u, q, w') = calls_next x f w in
      then-Ends (ys ++ f x ∷ map f xs) (Runs-append r q)
        (regroup ys (f x) (map f xs) (for_each-Ends f xs w'))

  remove_if-Ends :
      {i : ℕ} (p : A → Bool) (xs : List A) {s : System A} {cur : ℕ} {ys : List A}
      → Stands i (remove_if p) s cur ys xs
      → Ends i s none (ys ++ without p xs)
  remove_if-Ends p [] v = finishes v
  remove_if-Ends p (x ∷ xs) {ys = ys} v =
      let (t, n, r, w) = locks_next x v in
      elim (Bool-cases (p x)) [
        | inl h ↦
            let (u, q, w') = removes_next x p w h in
            rw h (then-Ends (ys ++ without p xs) (Runs-append r q) (remove_if-Ends p xs w'))
        | inr h ↦
            let (u, q, w') = keeps_next x p w h in
            rw h (
              then-Ends (ys ++ x ∷ without p xs) (Runs-append r q)
                (regroup ys x (without p xs) (remove_if-Ends p xs w')))
      ]

  find_first_if-Ends :
      {i : ℕ} (p : A → Bool) (xs : List A) {s : System A} {cur : ℕ} {ys : List A}
      → Stands i (find_first_if p) s cur ys xs
      → Ends i s (find p xs) (ys ++ xs)
  find_first_if-Ends p [] v = finishes v
  find_first_if-Ends p (x ∷ xs) {ys = ys} v =
      let (t, n, r, w) = locks_next x v in
      elim (Bool-cases (p x)) [
        | inl h ↦ rw h (then-Ends (ys ++ x ∷ xs) r (finds_next x p w h))
        | inr h ↦
            let (u, q, w') = passes_next x p w h in
            rw h (
              then-Ends (ys ++ x ∷ xs) (Runs-append r q)
                (regroup ys x xs (find_first_if-Ends p xs w')))
      ]

  task-Ends :
      {i : ℕ} (task : Task A) (xs : List A) {s : System A}
      → Stands i task s 0 [] xs
      → Ends i s (answer task xs) (after task xs)
  task-Ends (for_each f) xs v = for_each-Ends f xs v
  task-Ends (find_first_if p) xs v = find_first_if-Ends p xs v
  task-Ends (remove_if p) xs v = remove_if-Ends p xs v

  runs_begun :
      {s : System A}
      → Reach s
      → (i : ℕ) (task : Task A) (xs : List A) → s.threads i ≡ Thread.idle
      → ((a : ℕ) → s.locks a ≡ none)
      → Contents s.nodes 0 xs
      → Ends i (begun s i task) (answer task xs) (after task xs)
  runs_begun {s} r i task xs e free c =
      let first : Step s (begun s i task) = begin i task e (free 0) in
      task-Ends task xs record {
        inv = keeps (Reach-Inv r) first;
        where_at = write_self s.threads i _;
        free = λ a ne. ground (arith, ne, free a);
        path = refl;
        contents = c;
      }

  -- A call that no other thread disturbs ends: in every state that threads reach and in which no mutex is
  -- locked, an idle thread can begin a `for_each`, a `find_first_if` or a `remove_if`. However far it
  -- has then gone by steps inside this call alone, such steps lead on to the end of the call, with
  -- every mutex unlocked. `for_each` has applied its function to every value, `find_first_if` returns
  -- the first value that passes and leaves the list as it was, and `remove_if` leaves the values that
  -- do not pass, in order.
  pub calls_end :
      {s : System A}
      → Reach s
      → (i : ℕ) (task : Task A) (xs : List A) → s.threads i ≡ Thread.idle
      → ((a : ℕ) → s.locks a ≡ none)
      → Contents s.nodes 0 xs
      → Step s (begun s i task)
        × ((t : System A) → Runs i (begun s i task) t → Ends i t (answer task xs) (after task xs))
  calls_end {s} r i task xs e free c = (
    begin i task e (free 0),
    λ t q.
        let (u, run, d, contents, unlocked) = runs_begun r i task xs e free c in
        (u, rest_of (answer task xs) run d q, d, contents, unlocked),
  )

  kept_behind :
      {s : System A} (v : Inv s) (nodes : ℕ → Option (Node A)) (a b b' : ℕ) (xs : List A)
      → s.nodes a ≡ none
      → ((c : ℕ) → c ≢ a → c ≢ 0 → nodes c ≡ s.nodes c)
      → next_of (nodes b') ≡ next_of (s.nodes b)
      → Contents s.nodes b xs
      → Contents nodes b' xs
  kept_behind v nodes a b b' [] f same e c = e ∙ c
  kept_behind v nodes a b b' (x ∷ xs) f same e (n, g, h, c) =
      let new : n ≢ a = ground (arith, v.linked b n g, f) in
      let behind : n ≢ 0 = ground (arith, v.linked b n g) in
      (
        n,
        e ∙ g,
        ap value_at (same n new behind) ∙ h,
        kept_behind v nodes a n n xs f same (ap next_of (same n new behind)) c,
      )

  -- Whatever other threads do, `push_front` puts its value before the values of the list.
  pub push_front_lem :
      {s : System A}
      → Reach s
      → (x : A) (a : ℕ) (head : Node A) (xs : List A) → s.nodes a ≡ none
      → s.nodes 0 ≡ some head
      → Contents s.nodes 0 xs
      → Contents
          (write
            (write s.nodes a (some (record { value = some x; next = head.next })))
            0
            (some (record head { next = some a })))
          0
          (x ∷ xs)
  push_front_lem {s} r x a head xs f g c =
      let nodes =
        write (write s.nodes a (some (record { value = some x; next = head.next }))) 0
          (some (record head { next = some a })) in
      let v = Reach-Inv r in
      (
        a,
        refl,
        ground (arith, f, g),
        kept_behind v nodes a 0 a xs f (λ b ne ne'. ground (arith, ne, ne')) (ground (arith, f, g))
            c,
      )
