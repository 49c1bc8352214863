-- ===== src/ThreadSafe/ConcurrentList/Alone.antt =====
-- How each of the three loops of src/thread-safe/list.cpp treats the next node, if no other thread
-- disturbs it.
use cpp_wtfsc.Base.{ℕ, ◌≡◌, refl, Bool, true, false, List, [], ◌∷◌, ◌++◌, none, some, arith}
use cpp_wtfsc.ThreadSafe.ConcurrentList.{
  for_each, find_first_if, remove_if, Thread, System, write, Step, unlock_head, call, found,
  not_found, keep, unlink, unlock_next, delete_next,
}
use cpp_wtfsc.ThreadSafe.ConcurrentList.Keeps.{keeps}
use cpp_wtfsc.ThreadSafe.ConcurrentList.Contents.{
  Contents, Between-snoc, Contents-append, Between-before, Runs, here, move,
}
use cpp_wtfsc.ThreadSafe.ConcurrentList.Rounds.{
  write_self, Stands, Pair, value_node, next_node, Contents-of,
}

module _ {A : Type 0} where
  module _ {i : ℕ} {s : System A} {cur n : ℕ} {ys xs : List A} (x : A) (p : A → Bool) where
    pub keeps_next :
        Pair i (remove_if p) s cur n ys x xs
        → p x ≡ false
        → (u : System A) × Runs i s u × Stands i (remove_if p) u n (ys ++ x ∷ []) xs
    keeps_next v h =
        let (node, f, g) = value_node (s.nodes n) x v.value in
        let t : System A = record s {
          locks = write s.locks cur none;
          threads = write s.threads i (Thread.at (remove_if p) n);
        } in
        let first : Step s t = keep i v.where_at f g h in
        (
          t,
          move first refl here,
          record {
            inv = keeps v.inv first;
            where_at = write_self s.threads i _;
            free = λ a ne. ground (arith, v.free a, ne);
            path = Between-snoc s.nodes 0 ys cur n x v.path v.next v.value;
            contents = v.contents;
          },
        )

    pub removes_next :
        Pair i (remove_if p) s cur n ys x xs
        → p x ≡ true
        → (u : System A) × Runs i s u × Stands i (remove_if p) u cur ys xs
    removes_next v h =
        let down = v.inv.falls cur n v.next in
        let (node, f, g) = value_node (s.nodes n) x v.value in
        let (before, f', g') = next_node (s.nodes cur) n v.next in
        let t : System A = record s {
          nodes =
              write (write s.nodes n (some (record node { next = none }))) cur
                (some (record before { next = node.next }));
          threads = write s.threads i (Thread.unlinked p cur n);
        } in
        let t' : System A = record t {
          locks = write t.locks n none;
          threads = write t.threads i (Thread.retired p cur n);
        } in
        let u : System A = record t' {
          nodes = write t'.nodes n none;
          threads = write t'.threads i (Thread.at (remove_if p) cur);
        } in
        let first : Step s t = unlink i v.where_at f' f g h in
        let second : Step t t' = unlock_next i (write_self s.threads i _) in
        let third : Step t' u = delete_next i (write_self t.threads i _) in
        let kept =
          Between-before v.inv u.nodes cur 0 ys (λ b q. ground (arith, q, down, f'))
            (λ b q. ground (arith, q, down, f')) v.path in
        (
          u,
          move first refl (move second refl (move third refl here)),
          record {
            inv = keeps (keeps (keeps v.inv first) second) third;
            where_at = write_self t'.threads i _;
            free = λ a ne. ground (arith, v.free a ne);
            path = kept.0;
            contents =
                Contents-of v.inv cur n u.nodes xs (ground (arith, f, down))
                  (λ b q. ground (arith, q, down)) v.contents;
          },
        )

  module _ {i : ℕ} {s : System A} {cur n : ℕ} {ys xs : List A} (x : A) where
    pub calls_next :
        (f : A → A)
        → Pair i (for_each f) s cur n ys x xs
        → (u : System A) × Runs i s u × Stands i (for_each f) u n (ys ++ f x ∷ []) xs
    calls_next f v =
        let down = v.inv.falls cur n v.next in
        let (node, g, w) = value_node (s.nodes n) x v.value in
        let t : System A = record s {
          locks = write s.locks cur none;
          threads = write s.threads i (Thread.visiting (for_each f) n);
        } in
        let u : System A = record t {
          nodes = write t.nodes n (some (record node { value = some (f x) }));
          threads = write t.threads i (Thread.at (for_each f) n);
        } in
        let first : Step s t = unlock_head i v.where_at refl in
        let second : Step t u = call i (write_self s.threads i _) g w in
        let kept =
          Between-before v.inv u.nodes cur 0 ys (λ b q. ground (arith, g))
            (λ b q. ground (arith, q, down)) v.path in
        (
          u,
          move first refl (move second refl here),
          record {
            inv = keeps (keeps v.inv first) second;
            where_at = write_self t.threads i _;
            free = λ a ne. ground (arith, v.free a, ne);
            path =
                Between-snoc u.nodes 0 ys cur n (f x) kept.0 (ground (arith, v.next, down))
                  (ground arith);
            contents =
                Contents-of v.inv n n u.nodes xs (ground (arith, g)) (λ b q. ground (arith, q))
                  v.contents;
          },
        )

    module _ (p : A → Bool) (v : Pair i (find_first_if p) s cur n ys x xs) where
      abbrev unlocked : System A
      unlocked = record s {
        locks = write s.locks cur none;
        threads = write s.threads i (Thread.visiting (find_first_if p) n);
      }

      abbrev first_unlocks : Step s unlocked
      first_unlocks = unlock_head i v.where_at refl

      pub passes_next :
          p x ≡ false
          → (u : System A) × Runs i s u × Stands i (find_first_if p) u n (ys ++ x ∷ []) xs
      passes_next h =
          let (node, f, g) = value_node (s.nodes n) x v.value in
          let u : System A = record unlocked {
            threads = write unlocked.threads i (Thread.at (find_first_if p) n);
          } in
          let second : Step unlocked u = not_found i (write_self s.threads i _) f g h in
          (
            u,
            move first_unlocks refl (move second refl here),
            record {
              inv = keeps (keeps v.inv first_unlocks) second;
              where_at = write_self unlocked.threads i _;
              free = λ a ne. ground (arith, v.free a, ne);
              path = Between-snoc s.nodes 0 ys cur n x v.path v.next v.value;
              contents = v.contents;
            },
          )

      pub finds_next :
          p x ≡ true
          → (u : System A) × Runs i s u
            × (u.threads i ≡ Thread.done (some x))
            × Contents u.nodes 0 (ys ++ x ∷ xs)
            × ((a : ℕ) → u.locks a ≡ none)
      finds_next h =
          let (node, f, g) = value_node (s.nodes n) x v.value in
          let u : System A = record unlocked {
            locks = write unlocked.locks n none;
            threads = write unlocked.threads i (Thread.done (some x));
          } in
          let second : Step unlocked u = found i (write_self s.threads i _) f g h in
          (
            u,
            move first_unlocks refl (move second refl here),
            write_self unlocked.threads i _,
            Contents-append s.nodes 0 ys cur (x ∷ xs) v.path (n, v.next, v.value, v.contents),
            λ a. ground (arith, v.free a),
          )
