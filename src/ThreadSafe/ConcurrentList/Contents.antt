-- ===== src/ThreadSafe/ConcurrentList/Contents.antt =====
-- The values of the list of src/thread-safe/list.cpp, and how they follow a change of some nodes.
use cpp_wtfsc.Base.{ℕ, ◌≡◌, ◌<◌, ◌≤◌, refl, ap, ◌∙◌, List, [], ◌∷◌, ◌++◌, Option, none, some, arith}
use cpp_wtfsc.ThreadSafe.ConcurrentList.{
  Node, System, Step, push_front, begin, read_next, finish, lock_next, unlock_head, call, found,
  not_found, keep, unlink, unlock_next, delete_next, return,
}
use cpp_wtfsc.ThreadSafe.ConcurrentList.Invariant.{next_of, Inv}

module _ {A : Type 0} where
  abbrev pub value_at : Option (Node A) → Option A
  value_at none = none
  value_at (some node) = node.value

  -- The nodes behind `a`, up to `b`, hold these values.
  abbrev pub Between : (ℕ → Option (Node A)) → ℕ → List A → ℕ → Type 0
  Between nodes a [] b = a ≡ b
  Between nodes a (x ∷ xs) b =
      (n : ℕ) × (next_of (nodes a) ≡ some n) × (value_at (nodes n) ≡ some x) × Between nodes n xs b

  -- The nodes behind `a`, to the end, hold these values.
  abbrev pub Contents : (ℕ → Option (Node A)) → ℕ → List A → Type 0
  Contents nodes a [] = next_of (nodes a) ≡ none
  Contents nodes a (x ∷ xs) =
      (n : ℕ) × (next_of (nodes a) ≡ some n) × (value_at (nodes n) ≡ some x) × Contents nodes n xs

  pub Between-snoc :
      (nodes : ℕ → Option (Node A)) (a : ℕ) (xs : List A) (b n : ℕ) (x : A)
      → Between nodes a xs b
      → next_of (nodes b) ≡ some n
      → value_at (nodes n) ≡ some x
      → Between nodes a (xs ++ x ∷ []) n
  Between-snoc nodes a [] b n x p e f = (n, ap (λ c. next_of (nodes c)) p ∙ e, f, refl)
  Between-snoc nodes a (y ∷ xs) b n x (m, g, h, p) e f =
      (m, g, h, Between-snoc nodes m xs b n x p e f)

  pub Contents-append :
      (nodes : ℕ → Option (Node A)) (a : ℕ) (xs : List A) (b : ℕ) (ys : List A)
      → Between nodes a xs b
      → Contents nodes b ys
      → Contents nodes a (xs ++ ys)
  Contents-append nodes a [] b ys p c = rw p c
  Contents-append nodes a (x ∷ xs) b ys (n, e, f, p) c =
      (n, e, f, Contents-append nodes n xs b ys p c)

  module _ {s : System A} (v : Inv s) (nodes : ℕ → Option (Node A)) where
    -- Nodes before `c` are not changed by what happens from `c` on.
    pub Between-before :
        (c a : ℕ) (xs : List A)
        → ((b : ℕ) → v.rank c < v.rank b → next_of (nodes b) ≡ next_of (s.nodes b))
        → ((b : ℕ) → v.rank c ≤ v.rank b → value_at (nodes b) ≡ value_at (s.nodes b))
        → Between s.nodes a xs c
        → Between nodes a xs c × (v.rank c ≤ v.rank a)
    Between-before c a [] next value p = (p, ground (arith, p))
    Between-before c a (x ∷ xs) next value (n, e, f, p) =
        let (p', le) = Between-before c n xs next value p in
        let down = v.falls a n e in ((n, next a (omega arith) ∙ e, value n le ∙ f, p'), omega arith)

    -- Nodes behind `c` are not changed by what happens up to `c`.
    pub Contents-behind :
        (c a : ℕ) (xs : List A)
        → ((b : ℕ) → v.rank b < v.rank c → next_of (nodes b) ≡ next_of (s.nodes b))
        → ((b : ℕ) → v.rank b < v.rank c → value_at (nodes b) ≡ value_at (s.nodes b))
        → v.rank a < v.rank c
        → Contents s.nodes a xs
        → Contents nodes a xs
    Contents-behind c a [] next value h e = next a h ∙ e
    Contents-behind c a (x ∷ xs) next value h (n, e, f, r) =
        let down = v.falls a n e in
        (
          n,
          next a h ∙ e,
          value n (omega arith) ∙ f,
          Contents-behind c n xs next value (omega arith) r,
        )

  -- The thread that makes a step inside one of its calls of a `Task`.
  abbrev pub mover : {s t : System A} → Step s t → Option ℕ
  mover (push_front i x a e f g h) = none
  mover (begin i task e f) = none
  mover (read_next i e f g) = some i
  mover (finish i e f g) = some i
  mover (lock_next i e f) = some i
  mover (unlock_head i e f) = some i
  mover (call i e f g) = some i
  mover (found i e f g h) = some i
  mover (not_found i e f g h) = some i
  mover (keep i e f g h) = some i
  mover (unlink i e f g h k) = some i
  mover (unlock_next i e) = some i
  mover (delete_next i e) = some i
  mover (return i e) = none

  -- Steps of thread `i` alone, inside one call: it neither begins a call nor returns from one.
  pub data Runs (i : ℕ) : System A → System A → Type 0 where
    here : {s : System A} → Runs i s s
    move : {s t u : System A} → (e : Step s t) → mover e ≡ some i → Runs i t u → Runs i s u
