-- ===== src/ThreadSafe/ConcurrentList/Pushes.antt =====
-- `push_front` of src/thread-safe/list.cpp keeps the invariant.
use cpp_wtfsc.Base.{ℕ, ◌+◌, ◌≡◌, ◌≢◌, ◌<◌, refl, true, ◌⊎◌, none, some, ◌==◌, if◌then◌else◌, arith}
use cpp_wtfsc.ThreadSafe.ConcurrentList.{Node, System, write}
use cpp_wtfsc.ThreadSafe.ConcurrentList.Invariant.{next_of, is_some, has_value, Inv}
use cpp_wtfsc.ThreadSafe.ConcurrentList.Moves.{Relies-frame}
use cpp_wtfsc.ThreadSafe.ConcurrentList.Links.{locked_there, detached_there}

module _ {A : Type 0} {s : System A} (v : Inv s) where
  pub Inv-push :
      (x : A) (a : ℕ) (head : Node A)
      → s.nodes a ≡ none
      → s.locks 0 ≡ none
      → s.nodes 0 ≡ some head
      → Inv (record s {
        nodes =
            write
              (write s.nodes a (some (record { value = some x; next = head.next })))
              0
              (some (record head { next = some a }));
        locks = write s.locks a none;
      })
  Inv-push x a head f l g =
      let nodes' =
        write (write s.nodes a (some (record { value = some x; next = head.next }))) 0
          (some (record head { next = some a })) in
      let s' : System A = record s { nodes = nodes'; locks = write s.locks a none } in
      let pos : 0 < a = ground (arith, f, g) in
      let there : (b : ℕ) → is_some (s.nodes b) ≡ true → is_some (nodes' b) ≡ true =
        λ b h. ground (arith, h) in
      let value : (b : ℕ) → has_value (s.nodes b) ≡ true → has_value (nodes' b) ≡ true =
        λ b h. ground (arith, h, g) in
      let unlocked : (j : ℕ) → s.locks a ≢ some j =
        λ j h. ground (arith, locked_there v j a h, f) in
      let old_next : (b : ℕ) → next_of (s.nodes b) ≢ some a =
        λ b h. ground (arith, v.linked b a h, f) in
      let next : (b m : ℕ)
          → next_of (nodes' b) ≡ some m
          → ((b ≡ 0) × (m ≡ a))
            ⊎ ((b ≡ a) × (next_of (s.nodes 0) ≡ some m))
            ⊎ ((b ≢ 0) × (b ≢ a) × (next_of (s.nodes b) ≡ some m)) =
        λ b m h. ground (arith, g, h, pos) in
      record {
        head_there = refl;
        linked = λ b m h. ground (arith, next b m h, v.linked b m, v.linked 0 m, value m, pos);
        one_before = λ b c m h k. ground (
          arith,
          next b m h,
          next c m k,
          v.one_before b c m,
          v.one_before 0 c m,
          v.one_before b 0 m,
          old_next b,
          old_next c,
          old_next 0,
        );
        rank = λ b. if b == 0 then v.rank 0 + 1 else if b == a then v.rank 0 else v.rank b;
        falls = λ b m h. ground (
          arith,
          next b m h,
          v.falls b m,
          v.falls 0 m,
          v.linked b m,
          v.linked 0 m,
          old_next b,
          old_next 0,
          pos,
        );
        relies = λ j.
            Relies-frame s s' j (s.threads j) (λ b h. ground (arith, h, unlocked j))
              (λ b d h. ground (arith, h)) (λ b h. there b) (λ b h. there b)
              (λ b m h q. ground (arith, h, q, l, f)) (λ b h. value b) (v.relies j);
        none_before = λ j b c d.
            let (h, p) = v.none_before j b c d in
            (
              λ q.
                  ground
                    (arith, next b c q, h, (v.none_before j 0 c d).0, detached_there v j c d, f),
              p,
            );
        detached_once = v.detached_once;
        owned = λ b j h. v.owned b j (ground (arith, h));
      }
