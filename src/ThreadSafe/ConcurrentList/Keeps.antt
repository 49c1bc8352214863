-- ===== src/ThreadSafe/ConcurrentList/Keeps.antt =====
-- Every step of src/thread-safe/list.cpp keeps the invariant.
use cpp_wtfsc.Base.{refl, ap, ◌∙◌, Option, none, some, arith}
use cpp_wtfsc.ThreadSafe.ConcurrentList.{
  Node, for_each, find_first_if, remove_if, Thread, System, write, Step, push_front, begin,
  read_next, finish, lock_next, unlock_head, call, found, not_found, keep, unlink, unlock_next,
  delete_next, return, Reach, start, step,
}
use cpp_wtfsc.ThreadSafe.ConcurrentList.Invariant.{next_of, Relies, Inv}
use cpp_wtfsc.ThreadSafe.ConcurrentList.Links.{value_there, Inv-unlink, Inv-delete}
use cpp_wtfsc.ThreadSafe.ConcurrentList.Pushes.{Inv-push}
use cpp_wtfsc.ThreadSafe.ConcurrentList.Moves.{Inv-move, Inv-stay, Inv-release, Inv-acquire}

module _ {A : Type 0} where
  pub keeps : {s t : System A} → Inv s → Step s t → Inv t
  keeps {s} v (push_front i x a {head} e f h g) = Inv-push v x a head f h g
  keeps {s} v (begin i task e h) =
      Inv-acquire v i (Thread.at task 0) 0 h
        (λ j d. absurd (omega (arith, (v.none_before j 0 0 d).1)))
        (λ a d. absurd (ground (arith, d))) refl (λ a q. ground (arith, e, q)) (refl, v.head_there)
  keeps {s} v (read_next i {task} {cur} {n} {node} e f g) =
      let r : Relies s i (Thread.at task cur) = rw e at (v.relies i) in
      Inv-stay v i (Thread.reached task cur n) (λ a d. absurd (ground (arith, d)))
        (λ a q. ground (arith, e, q)) (r.0, ap next_of f ∙ g)
  keeps {s} v (finish i {task} {cur} e f g) =
      let r : Relies s i (Thread.at task cur) = rw e at (v.relies i) in
      Inv-release v i (Thread.done none) cur r.0 (λ a d. absurd (ground (arith, d)))
        (λ a ne q. ground (arith, e, ne, q)) tt
  keeps {s} v (lock_next i {task} {cur} {n} e h) =
      let r : Relies s i (Thread.reached task cur n) = rw e at (v.relies i) in
      Inv-acquire v i (Thread.both task cur n) n h (λ j d. (v.none_before j cur n d).0 r.1)
        (λ a d. absurd (ground (arith, d))) (ground arith) (λ a q. ground (arith, e, q))
        (ground (arith, r, h), r.1, ground arith)
  keeps {s} v (unlock_head i {task} {cur} {n} e u) =
      let r : Relies s i (Thread.both task cur n) = rw e at (v.relies i) in
      Inv-release v i (Thread.visiting task n) cur r.0 (λ a d. absurd (ground (arith, d)))
        (λ a ne q. ground (arith, e, ne, q))
        (ground (arith, r.2, v.falls cur n r.1), (v.linked cur n r.1).0, u)
  keeps {s} v (call i {f} {n} {node} {x} e g w) =
      let r : Relies s i (Thread.visiting (for_each f) n) = rw e at (v.relies i) in
      let node' : Option (Node A) = some (record node { value = some (f x) }) in
      Inv-move v i (Thread.at (for_each f) n) (write s.nodes n node') s.locks
        (λ a. ground (arith, g)) (λ a. ground (arith, g)) (λ a. ground (arith, g, w))
        (λ a j ne q. q) (λ a j ne q. q) (λ a j ne d q. q) (λ a d. absurd (ground (arith, d)))
        (λ a q. ground (arith, e, v.owned a i q)) (r.0, ground arith)
  keeps {s} v (found i {p} {n} e f g h) =
      let r : Relies s i (Thread.visiting (find_first_if p) n) = rw e at (v.relies i) in
      Inv-release v i (Thread.done (some _)) n r.0 (λ a d. absurd (ground (arith, d)))
        (λ a ne q. ground (arith, e, ne, q)) tt
  keeps {s} v (not_found i {p} {n} e f g h) =
      let r : Relies s i (Thread.visiting (find_first_if p) n) = rw e at (v.relies i) in
      Inv-stay v i (Thread.at (find_first_if p) n) (λ a d. absurd (ground (arith, d)))
        (λ a q. ground (arith, e, q)) (r.0, value_there (s.nodes n) r.1)
  keeps {s} v (keep i {p} {cur} {n} e f g h) =
      let r : Relies s i (Thread.both (remove_if p) cur n) = rw e at (v.relies i) in
      Inv-release v i (Thread.at (remove_if p) n) cur r.0 (λ a d. absurd (ground (arith, d)))
        (λ a ne q. ground (arith, e, ne, q))
        (ground (arith, r.2, v.falls cur n r.1), value_there (s.nodes n) (v.linked cur n r.1).0)
  keeps {s} v (unlink i {p} {cur} {n} {before} {node} e f g w h) =
      Inv-unlink v i p cur n before node e f g
  keeps {s} v (unlock_next i {p} {cur} {old_next} e) =
      let r : Relies s i (Thread.unlinked p cur old_next) = rw e at (v.relies i) in
      Inv-release v i (Thread.retired p cur old_next) old_next r.2 (λ a d. rw e d)
        (λ a ne q. ground (arith, e, ne, q)) (ground (arith, r.0, r.4), r.1, ground arith, r.3)
  keeps {s} v (delete_next i {p} {cur} {old_next} e) = Inv-delete v i p cur old_next e
  keeps {s} v (return i e) =
      Inv-stay v i Thread.idle (λ a d. absurd (ground (arith, d))) (λ a q. ground (arith, e, q)) tt

  pub Reach-Inv : {s : System A} → Reach s → Inv s
  Reach-Inv start = record {
    head_there = refl;
    linked = λ a n e. absurd (ground (arith, e));
    one_before = λ a b n e f. absurd (ground (arith, e));
    rank = λ a. 0;
    falls = λ a n e. absurd (ground (arith, e));
    relies = λ i. tt;
    none_before = λ i a b d. absurd (ground (arith, d));
    detached_once = λ i j a d e. absurd (ground (arith, d));
    owned = λ a i e. absurd (ground (arith, e));
  }
  Reach-Inv (step r e) = keeps (Reach-Inv r) e
