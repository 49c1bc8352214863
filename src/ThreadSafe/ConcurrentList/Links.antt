-- ===== src/ThreadSafe/ConcurrentList/Links.antt =====
-- The steps of `remove_if` of src/thread-safe/list.cpp that change the list keep the invariant.
use cpp_wtfsc.Base.{ℕ, ◌≡◌, ◌≢◌, ◌<◌, refl, ◌∙◌, Bool, true, ◌⊎◌, Option, none, some, arith}
use cpp_wtfsc.ThreadSafe.ConcurrentList.{Node, remove_if, Thread, System, write}
use cpp_wtfsc.ThreadSafe.ConcurrentList.Invariant.{
  next_of, is_some, has_value, detached, holds, Relies, Inv,
}
use cpp_wtfsc.ThreadSafe.ConcurrentList.Moves.{Relies-frame, split, detached_before}

module _ {A : Type 0} where
  pub next_there : (o : Option (Node A)) (n : ℕ) → next_of o ≡ some n → is_some o ≡ true
  next_there none n e = ground (arith, e)
  next_there (some node) n e = refl

  pub value_there : (o : Option (Node A)) → has_value o ≡ true → is_some o ≡ true
  value_there none e = e
  value_there (some node) e = refl

  module _ {s : System A} (v : Inv s) where
    holds_there :
        (j a : ℕ) (t : Thread A) → Relies s j t → holds t a ≡ true → is_some (s.nodes a) ≡ true
    holds_there j a Thread.idle r e = absurd (ground (arith, e))
    holds_there j a (Thread.at task c) r e = ground (arith, r, e)
    holds_there j a (Thread.reached task c n) r e = ground (arith, e, next_there (s.nodes c) n r.1)
    holds_there j a (Thread.both task c n) r e =
        ground
          (arith, e, next_there (s.nodes c) n r.1, value_there (s.nodes n) (v.linked c n r.1).0)
    holds_there j a (Thread.visiting task n) r e = ground (arith, e, value_there (s.nodes n) r.1)
    holds_there j a (Thread.unlinked p c old) r e = ground (arith, r, e)
    holds_there j a (Thread.retired p c old) r e = ground (arith, r, e)
    holds_there j a (Thread.done o) r e = absurd (ground (arith, e))

    -- A mutex that is locked exists.
    pub locked_there : (j a : ℕ) → s.locks a ≡ some j → is_some (s.nodes a) ≡ true
    locked_there j a e = holds_there j a (s.threads j) (v.relies j) (v.owned a j e)

    detached_is :
        (j a : ℕ) (t : Thread A) → Relies s j t → detached t ≡ some a → is_some (s.nodes a) ≡ true
    detached_is j a (Thread.unlinked p c old) r e = ground (arith, r, e)
    detached_is j a (Thread.retired p c old) r e = ground (arith, r, e)
    detached_is j a Thread.idle r e = absurd (ground (arith, e))
    detached_is j a (Thread.at task c) r e = absurd (ground (arith, e))
    detached_is j a (Thread.reached task c n) r e = absurd (ground (arith, e))
    detached_is j a (Thread.both task c n) r e = absurd (ground (arith, e))
    detached_is j a (Thread.visiting task n) r e = absurd (ground (arith, e))
    detached_is j a (Thread.done o) r e = absurd (ground (arith, e))

    pub detached_there : (j a : ℕ) → detached (s.threads j) ≡ some a → is_some (s.nodes a) ≡ true
    detached_there j a e = detached_is j a (s.threads j) (v.relies j) e

    pub Inv-delete :
        (i : ℕ) (p : A → Bool) (cur old : ℕ)
        → s.threads i ≡ Thread.retired p cur old
        → Inv (record s {
          nodes = write s.nodes old none;
          threads = write s.threads i (Thread.at (remove_if p) cur);
        })
    Inv-delete i p cur old e =
        let nodes' = write s.nodes old none in
        let threads' = write s.threads i (Thread.at (remove_if p) cur) in
        let s' : System A = record s { nodes = nodes'; threads = threads' } in
        let r : Relies s i (Thread.retired p cur old) = rw e at (v.relies i) in
        let gone : detached (s.threads i) ≡ some old = rw e refl in
        let from =
          detached_before s.threads i (Thread.at (remove_if p) cur)
            (λ a d. absurd (ground (arith, d))) in
        record {
          head_there = ground (arith, v.head_there, (v.none_before i 0 old gone).1);
          linked = λ a n h. ground (arith, h, v.linked a n, (v.none_before i a old gone).0);
          one_before = λ a b n h k. ground (arith, h, k, v.one_before a b n);
          rank = v.rank;
          falls = λ a n h. ground (arith, h, v.falls a n);
          relies =
              split (Relies s') s.threads i (Thread.at (remove_if p) cur)
                (r.0, ground (arith, r.0, r.1, r.2))
                λ j ne.
                  Relies-frame s s' j (s.threads j) (λ a l. l) (λ a d l. l)
                    (λ a l q. ground (arith, l, q, r.2))
                    (λ a d q. ground (arith, q, d, ne, v.detached_once i j old gone))
                    (λ a n l q. ground (arith, l, q, r.2)) (λ a l q. ground (arith, l, q, r.2))
                    (v.relies j);
          none_before = λ j a b d.
              let (h, k) = v.none_before j a b (from j b d) in (λ q. h (ground (arith, q)), k);
          detached_once = λ j k a d d'. v.detached_once j k a (from j a d) (from k a d');
          owned = λ a.
              split (λ j u. s.locks a ≡ some j → holds u a ≡ true) s.threads i
                (Thread.at (remove_if p) cur) (λ l. ground (arith, e, v.owned a i l))
                (λ j ne l. v.owned a j l);
        }

    pub Inv-unlink :
        (i : ℕ) (p : A → Bool) (cur n : ℕ) (before node : Node A)
        → s.threads i ≡ Thread.both (remove_if p) cur n
        → s.nodes cur ≡ some before
        → s.nodes n ≡ some node
        → Inv (record s {
          nodes =
              write
                (write s.nodes n (some (record node { next = none })))
                cur
                (some (record before { next = node.next }));
          threads = write s.threads i (Thread.unlinked p cur n);
        })
    Inv-unlink i p cur n before node e f g =
        let t : Thread A = Thread.unlinked p cur n in
        let nodes' =
          write (write s.nodes n (some (record node { next = none }))) cur
            (some (record before { next = node.next })) in
        let s' : System A = record s { nodes = nodes'; threads = write s.threads i t } in
        let r : Relies s i (Thread.both (remove_if p) cur n) = rw e at (v.relies i) in
        let down : v.rank n < v.rank cur = v.falls cur n r.1 in
        let there : (a : ℕ) → is_some (nodes' a) ≡ is_some (s.nodes a) =
          λ a. ground (arith, f, g) in
        let value : (a : ℕ) → has_value (nodes' a) ≡ has_value (s.nodes a) =
          λ a. ground (arith, f, g) in
        let next : (a m : ℕ)
            → next_of (nodes' a) ≡ some m
            → ((a ≡ cur) × (next_of (s.nodes n) ≡ some m))
              ⊎ ((a ≢ cur) × (a ≢ n) × (next_of (s.nodes a) ≡ some m)) =
          λ a m h. ground (arith, f, g, h) in
        let fresh : (k : ℕ) → detached (s.threads k) ≢ some n =
          λ k d. (v.none_before k cur n d).0 r.1 in
        record {
          head_there = there 0 ∙ v.head_there;
          linked = λ a m h. ground (arith, next a m h, value m, v.linked a m, v.linked n m);
          one_before = λ a b m h k. ground (
            arith,
            next a m h,
            next b m k,
            v.one_before a b m,
            v.one_before n b m,
            v.one_before a n m,
          );
          rank = v.rank;
          falls = λ a m h. ground (arith, next a m h, down, v.falls a m, v.falls n m);
          relies =
              split (Relies s') s.threads i t
                (r.0, ground (arith, f), r.2, ground (arith, g), ground (arith, down))
                λ j ne.
                  Relies-frame s s' j (s.threads j) (λ a l. l) (λ a d l. l) (λ a l q. there a ∙ q)
                    (λ a d q. there a ∙ q) (λ a m l q. ground (arith, l, q, r.0, r.2, ne))
                    (λ a l q. value a ∙ q) (v.relies j);
          none_before = λ j a.
              split (λ k u. (b : ℕ) → detached u ≡ some b → (next_of (nodes' a) ≢ some b) × (0 < b))
                s.threads i t
                (λ b d. (
                  λ q.
                      absurd (
                        ground
                          (arith, d, next a b q, v.falls n b, v.one_before a cur n, r.1, down)),
                  ground (arith, d, v.linked cur n r.1),
                ))
                (λ k ne b d.
                  let (h, pos) = v.none_before k a b d in
                  (λ q. ground (arith, next a b q, h, (v.none_before k n b d).0), pos))
                j;
          detached_once = λ j k a d d'.
              split (λ j u. detached u ≡ some a → detached (write s.threads i t k) ≡ some a → j ≡ k)
                s.threads i t
                (λ q.
                  split (λ k u. detached u ≡ some a → i ≡ k) s.threads i t (λ q'. refl)
                    (λ k ne q'. absurd (ground (arith, q, q', fresh k))) k)
                (λ j ne q.
                  split (λ k u. detached u ≡ some a → j ≡ k) s.threads i t
                    (λ q'. absurd (ground (arith, q, q', fresh j)))
                    (λ k ne' q'. v.detached_once j k a q q') k)
                j d d';
          owned = λ a.
              split (λ j u. s.locks a ≡ some j → holds u a ≡ true) s.threads i t
                (λ l. ground (arith, e, v.owned a i l)) (λ j ne l. v.owned a j l);
        }
