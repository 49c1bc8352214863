-- ===== src/ThreadSafe/ConcurrentList/Invariant.antt =====
-- What every step of src/thread-safe/list.cpp keeps.
use cpp_wtfsc.Base.{ℕ, ◌≡◌, ◌≢◌, ◌<◌, Bool, true, false, ◌||◌, Option, none, some, ◌==◌}
use cpp_wtfsc.ThreadSafe.ConcurrentList.{Node, Thread, System, unlocks_first}

abbrev pub is_some : {B : Type 0} → Option B → Bool
is_some none = false
is_some (some b) = true

module _ {A : Type 0} where
  abbrev pub next_of : Option (Node A) → Option ℕ
  next_of none = none
  next_of (some node) = node.next

  abbrev pub has_value : Option (Node A) → Bool
  has_value none = false
  has_value (some node) = is_some node.value

  -- The node that a thread has taken out of the list.
  abbrev pub detached : Thread A → Option ℕ
  detached (Thread.unlinked p cur old) = some old
  detached (Thread.retired p cur old) = some old
  detached _ = none

  abbrev pub holds : Thread A → ℕ → Bool
  holds Thread.idle a = false
  holds (Thread.at task cur) a = cur == a
  holds (Thread.reached task cur n) a = cur == a
  holds (Thread.both task cur n) a = (cur == a) || (n == a)
  holds (Thread.visiting task n) a = n == a
  holds (Thread.unlinked p cur old) a = (cur == a) || (old == a)
  holds (Thread.retired p cur old) a = cur == a
  holds (Thread.done o) a = false

  -- What thread `i` may rely on where it stands.
  abbrev pub Relies : System A → ℕ → Thread A → Type 0
  Relies s i Thread.idle = Unit
  Relies s i (Thread.at task cur) = (s.locks cur ≡ some i) × (is_some (s.nodes cur) ≡ true)
  Relies s i (Thread.reached task cur n) = (s.locks cur ≡ some i) × (next_of (s.nodes cur) ≡ some n)
  Relies s i (Thread.both task cur n) =
      (s.locks cur ≡ some i) × (next_of (s.nodes cur) ≡ some n) × (s.locks n ≡ some i)
  Relies s i (Thread.visiting task n) =
      (s.locks n ≡ some i) × (has_value (s.nodes n) ≡ true) × (unlocks_first task ≡ true)
  Relies s i (Thread.unlinked p cur old) =
      (s.locks cur ≡ some i)
      × (is_some (s.nodes cur) ≡ true)
      × (s.locks old ≡ some i)
      × (is_some (s.nodes old) ≡ true)
      × (cur ≢ old)
  Relies s i (Thread.retired p cur old) =
      (s.locks cur ≡ some i)
      × (is_some (s.nodes cur) ≡ true)
      × (s.locks old ≡ none)
      × (is_some (s.nodes old) ≡ true)
  Relies s i (Thread.done o) = Unit

  -- `rank` is greater the nearer a node is to `head_`.
  pub record Inv (s : System A) : Type 0 where
    pub head_there : is_some (s.nodes 0) ≡ true
    pub linked : (a n : ℕ) → next_of (s.nodes a) ≡ some n → (has_value (s.nodes n) ≡ true) × (0 < n)
    pub one_before :
        (a b n : ℕ) → next_of (s.nodes a) ≡ some n → next_of (s.nodes b) ≡ some n → a ≡ b
    pub rank : ℕ → ℕ
    pub falls : (a n : ℕ) → next_of (s.nodes a) ≡ some n → rank n < rank a
    pub relies : (i : ℕ) → Relies s i (s.threads i)
    pub none_before :
        (i a b : ℕ) → detached (s.threads i) ≡ some b → (next_of (s.nodes a) ≢ some b) × (0 < b)
    pub detached_once :
        (i j a : ℕ) → detached (s.threads i) ≡ some a → detached (s.threads j) ≡ some a → i ≡ j
    pub owned : (a i : ℕ) → s.locks a ≡ some i → holds (s.threads i) a ≡ true
