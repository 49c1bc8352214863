-- ===== src/ThreadSafe/ConcurrentList/Rounds.antt =====
-- Calls of src/thread-safe/list.cpp that no other thread disturbs: one round of their loops.
use cpp_wtfsc.Base.{
  ℕ, ◌≡◌, ◌≢◌, ◌<◌, refl, ap, ◌∙◌, Option-cases, inl, inr, List, [], ◌∷◌, ◌++◌, Option, none, some,
  arith,
}
use cpp_wtfsc.ThreadSafe.ConcurrentList.{
  Node, Task, Thread, System, write, Step, read_next, finish, lock_next,
}
use cpp_wtfsc.ThreadSafe.ConcurrentList.Invariant.{next_of, Relies, Inv}
use cpp_wtfsc.ThreadSafe.ConcurrentList.Keeps.{keeps}
use cpp_wtfsc.ThreadSafe.ConcurrentList.Contents.{
  value_at, Between, Contents, Contents-append, Contents-behind, Runs, here, move,
}

pub write_self : {B : Type 0} → (f : ℕ → B) (i : ℕ) (b : B) → write f i b i ≡ b
write_self f i b = ground arith

pub write_other : {B : Type 0} → (f : ℕ → B) (i j : ℕ) (b : B) → i ≢ j → write f i b j ≡ f j
write_other f i j b ne = ground arith

module _ {A : Type 0} where
  pub Runs-append : {i : ℕ} {s t u : System A} → Runs i s t → Runs i t u → Runs i s u
  Runs-append here q = q
  Runs-append (move e f r) q = move e f (Runs-append r q)

  -- At the head of the loop at `cur`, behind the values `ys` and before `xs`; no other lock is held.
  pub record Stands (i : ℕ) (task : Task A) (s : System A) (cur : ℕ) (ys xs : List A) : Type 0 where
    pub inv : Inv s
    pub where_at : s.threads i ≡ Thread.at task cur
    pub free : (a : ℕ) → a ≢ cur → s.locks a ≡ none
    pub path : Between s.nodes 0 ys cur
    pub contents : Contents s.nodes cur xs

  -- With the locks of `cur` and of the next node `n`.
  pub record Pair (i : ℕ) (task : Task A) (s : System A) (cur n : ℕ) (ys : List A) (x : A)
      (xs : List A) : Type 0 where
    pub inv : Inv s
    pub where_at : s.threads i ≡ Thread.both task cur n
    pub free : (a : ℕ) → a ≢ cur → a ≢ n → s.locks a ≡ none
    pub path : Between s.nodes 0 ys cur
    pub next : next_of (s.nodes cur) ≡ some n
    pub value : value_at (s.nodes n) ≡ some x
    pub contents : Contents s.nodes n xs

  pub next_node :
      (o : Option (Node A)) (n : ℕ)
      → next_of o ≡ some n
      → (node : Node A) × (o ≡ some node) × (node.next ≡ some n)
  next_node none n e = absurd (ground (arith, e))
  next_node (some node) n e = (node, refl, e)

  pub value_node :
      (o : Option (Node A)) (x : A)
      → value_at o ≡ some x
      → (node : Node A) × (o ≡ some node) × (node.value ≡ some x)
  value_node none x e = absurd (ground (arith, e))
  value_node (some node) x e = (node, refl, e)

  -- A node that leads on as `n` did has the contents of `n`, if nothing behind `n` changes.
  pub Contents-of :
      {s : System A} (v : Inv s) (cur n : ℕ) (nodes : ℕ → Option (Node A)) (zs : List A)
      → next_of (nodes cur) ≡ next_of (s.nodes n)
      → ((b : ℕ) → v.rank b < v.rank n → nodes b ≡ s.nodes b)
      → Contents s.nodes n zs
      → Contents nodes cur zs
  Contents-of v cur n nodes [] e same c = e ∙ c
  Contents-of v cur n nodes (z ∷ zs) e same (m, f, g, c) =
      let down = v.falls n m f in
      (
        m,
        e ∙ f,
        ap value_at (same m down) ∙ g,
        Contents-behind v nodes n m zs (λ b h. ap next_of (same b h))
            (λ b h. ap value_at (same b h)) down c,
      )

  module _ {i : ℕ} {task : Task A} {s : System A} {cur : ℕ} {ys xs : List A} where
    pub locks_next :
        (x : A)
        → Stands i task s cur ys (x ∷ xs)
        → (u : System A) × (n : ℕ) × Runs i s u × Pair i task u cur n ys x xs
    locks_next x v =
        let (n, next, value, rest) = v.contents in
        let (node, f, g) = next_node (s.nodes cur) n next in
        let t : System A = record s { threads = write s.threads i (Thread.reached task cur n) } in
        let u : System A = record t {
          locks = write s.locks n (some i);
          threads = write t.threads i (Thread.both task cur n);
        } in
        let at_t : t.threads i ≡ Thread.reached task cur n = write_self s.threads i _ in
        let apart : n ≢ cur = ground (arith, v.inv.falls cur n next) in
        let first : Step s t = read_next i v.where_at f g in
        let second : Step t u = lock_next i at_t (v.free n apart) in
        (
          u,
          n,
          move first refl (move second refl here),
          record {
            inv = keeps (keeps v.inv first) second;
            where_at = write_self t.threads i _;
            free = λ a ne ne'. ground (arith, v.free a ne, ne');
            path = v.path;
            next = next;
            value = value;
            contents = rest;
          },
        )

  module _ {i : ℕ} {task : Task A} {s : System A} {cur : ℕ} {ys : List A} where
    -- The loop ends at the last node.
    pub finishes :
        Stands i task s cur ys []
        → (u : System A) × Runs i s u
          × (u.threads i ≡ Thread.done none)
          × Contents u.nodes 0 (ys ++ [])
          × ((a : ℕ) → u.locks a ≡ none)
    finishes v =
        let relies : Relies s i (Thread.at task cur) = rw v.where_at at (v.inv.relies i) in
        let u : System A = record s {
          locks = write s.locks cur none;
          threads = write s.threads i (Thread.done none);
        } in
        elim (Option-cases (s.nodes cur)) [
          | inl f ↦ absurd (ground (arith, relies.1, f))
          | inr (node, f) ↦ (
            u,
            move (finish i v.where_at f (ground (arith, v.contents, f))) refl here,
            write_self s.threads i _,
            Contents-append s.nodes 0 ys cur [] v.path v.contents,
            λ a. ground (arith, v.free a),
          )
        ]
