-- ===== src/ThreadPool/Safety.antt =====
-- What holds in every state of a pool of src/thread-pool/thread_pool.h.
use cpp_wtfsc.Base.{
  ℕ, zero, suc, ◌+◌, ◌≤◌, ◌≡◌, ◌≢◌, refl, sym, ap, ◌∙◌, Bool, true, false, List, [], ◌∷◌, ◌++◌,
  some, get_elem?, set, replicate, length, length-set, length-replicate, arith, append_assoc,
  append-nil,
}
use cpp_wtfsc.ThreadPool.{
  Worker, waiting, running, returned, Pool, init, Step, enqueue, enqueue_refused, take_task, leave,
  complete, set_stop, Reach, begin, step,
}

-- The sum of a weight of tasks: two lists with the same sum for every weight hold the same tasks.
abbrev pub weigh : {T : Type 0} → (T → ℕ) → List T → ℕ
weigh f [] = 0
weigh f (x ∷ xs) = f x + weigh f xs

module _ {T : Type 0} where
  abbrev any_returned : List (Worker T) → Bool
  any_returned [] = false
  any_returned (waiting ∷ ws) = any_returned ws
  any_returned (running x ∷ ws) = any_returned ws
  any_returned (returned ∷ ws) = true

none_returned : (T : Type 0) (n : ℕ) → any_returned (replicate {A = Worker T} n waiting) ≡ false
none_returned T zero = refl
none_returned T (suc n) = none_returned T n

module _ {T : Type 0} where
  abbrev load : (T → ℕ) → Worker T → ℕ
  load f waiting = 0
  load f (running x) = f x
  load f returned = 0

  abbrev pub in_hand : (T → ℕ) → List (Worker T) → ℕ
  in_hand f [] = 0
  in_hand f (w ∷ ws) = load f w + in_hand f ws

  weigh-append : (f : T → ℕ) (xs : List T) (x : T) → weigh f (xs ++ x ∷ []) ≡ weigh f xs + f x
  weigh-append f [] x = omega arith
  weigh-append f (y ∷ xs) x = omega (arith, weigh-append f xs x)

  in_hand-set :
      (f : T → ℕ) (ws : List (Worker T)) (i : ℕ) (old w : Worker T)
      → get_elem? ws i ≡ some old
      → in_hand f (set ws i w) + load f old ≡ in_hand f ws + load f w
  in_hand-set f [] i old w e = absurd (ground (arith, e))
  in_hand-set f (v ∷ ws) zero old w e =
      let same : v ≡ old = ground (arith, e) in rw same (omega arith)
  in_hand-set f (v ∷ ws) (suc i) old w e = let r = in_hand-set f ws i old w e in omega arith

  cons_returned :
      (v : Worker T) (ws : List (Worker T)) → any_returned ws ≡ true → any_returned (v ∷ ws) ≡ true
  cons_returned waiting ws e = e
  cons_returned (running x) ws e = e
  cons_returned returned ws e = refl

  -- No step but `leave` makes a worker return.
  any_returned-set :
      (ws : List (Worker T)) (i : ℕ) (w : Worker T)
      → any_returned (set ws i w) ≡ true
      → w ≢ returned
      → any_returned ws ≡ true
  any_returned-set [] i w e ne = e
  any_returned-set (v ∷ ws) zero waiting e ne = cons_returned v ws e
  any_returned-set (v ∷ ws) zero (running x) e ne = cons_returned v ws e
  any_returned-set (v ∷ ws) zero returned e ne = absurd (ne refl)
  any_returned-set (waiting ∷ ws) (suc i) w e ne = any_returned-set ws i w e ne
  any_returned-set (running x ∷ ws) (suc i) w e ne = any_returned-set ws i w e ne
  any_returned-set (returned ∷ ws) (suc i) w e ne = refl

  in_hand-fresh : (f : T → ℕ) (n : ℕ) → in_hand f (replicate n waiting) ≡ 0
  in_hand-fresh f zero = refl
  in_hand-fresh f (suc n) = let r = in_hand-fresh f n in omega arith

  pub record Invariant (threads : ℕ) (p : Pool T) : Type 0 where
    pub size : length p.workers ≡ threads
    pub order : p.taken ++ p.tasks ≡ p.submitted
    pub once : (f : T → ℕ) → weigh f p.completed + in_hand f p.workers ≡ weigh f p.taken
    pub over : any_returned p.workers ≡ true → (p.stop ≡ true) × (p.tasks ≡ [])

  keeps : {threads : ℕ} {p q : Pool T} → Invariant threads p → Step p q → Invariant threads q
  keeps {p = p} v (enqueue task e) = record {
    size = v.size;
    order = sym (append_assoc p.taken p.tasks (task ∷ [])) ∙ ap (λ l. l ++ task ∷ []) v.order;
    once = v.once;
    over = λ r. absurd (let (s, _) = v.over r in ground (arith, s, e));
  }
  keeps v (enqueue_refused task e) = v
  keeps {p = p} v (take_task i {task} {rest} w e) = record {
    size = length-set p.workers i (running task) ∙ v.size;
    order = append_assoc p.taken (task ∷ []) rest ∙ ap (λ l. p.taken ++ l) (sym e) ∙ v.order;
    once = λ f.
        let old = v.once f in
        let moved = in_hand-set f p.workers i waiting (running task) w in
        let more = weigh-append f p.taken task in omega arith;
    over = λ r.
        let (s, none_left) =
          v.over (any_returned-set p.workers i (running task) r (λ c. ground (arith, c))) in
        absurd (ground (arith, none_left, e));
  }
  keeps {p = p} v (leave i w s e) = record {
    size = length-set p.workers i returned ∙ v.size;
    order = v.order;
    once = λ f.
        let old = v.once f in
        let moved = in_hand-set f p.workers i waiting returned w in omega arith;
    over = λ _. (s, e);
  }
  keeps {p = p} v (complete i {task} w) = record {
    size = length-set p.workers i waiting ∙ v.size;
    order = v.order;
    once = λ f.
        let old = v.once f in
        let moved = in_hand-set f p.workers i (running task) waiting w in omega arith;
    over = λ r. v.over (any_returned-set p.workers i waiting r (λ c. ground (arith, c)));
  }
  keeps v set_stop = record {
    size = v.size;
    order = v.order;
    once = v.once;
    over = λ r. (refl, (v.over r).1);
  }

  init-Invariant : (threads : ℕ) → Invariant threads (init threads)
  unfolding init
  init-Invariant threads = record {
    size = length-replicate threads waiting;
    order = refl;
    once = λ f. let r = in_hand-fresh f threads in omega arith;
    over = λ r. absurd (let n = none_returned T threads in ground (arith, n, r));
  }

  pub reach-Invariant : {threads : ℕ} {p : Pool T} → Reach threads p → Invariant threads p
  reach-Invariant {threads} begin = init-Invariant threads
  reach-Invariant (step r e) = keeps (reach-Invariant r) e

  -- In every reachable state the tasks taken, followed by those that wait, are the tasks submitted, in
  -- order, and each task taken is either completed or in the hands of one worker.
  pub pool_in_order :
      (threads : ℕ) (p : Pool T)
      → Reach threads p
      → (p.taken ++ p.tasks ≡ p.submitted)
        × ((f : T → ℕ) → weigh f p.completed + in_hand f p.workers ≡ weigh f p.taken)
  pool_in_order threads p r = let v = reach-Invariant r in (v.order, v.once)

  AllReturned : List (Worker T) → Type 0
  AllReturned ws = (i : ℕ) (w : Worker T) → get_elem? ws i ≡ some w → w ≡ returned

  idle_hands : (f : T → ℕ) (ws : List (Worker T)) → AllReturned ws → in_hand f ws ≡ 0
  unfolding AllReturned
  idle_hands f [] a = refl
  idle_hands f (w ∷ ws) a =
      let e = a 0 w refl in let r = idle_hands f ws (λ i. a (suc i)) in rw e (omega arith)

  -- When the destructor of a pool with at least one worker has joined them all, no task is left, and
  -- the tasks completed are those submitted: each of them once.
  pub pool_joined :
      (threads : ℕ) (p : Pool T)
      → Reach threads p
      → 1 ≤ threads
      → ((i : ℕ) (w : Worker T) → get_elem? p.workers i ≡ some w → w ≡ returned)
      → (p.tasks ≡ [])
        × (p.taken ≡ p.submitted)
        × ((f : T → ℕ) → weigh f p.completed ≡ weigh f p.submitted)
  unfolding AllReturned
  pool_joined threads p r some_worker all =
      let v = reach-Invariant r in
      let (_, drained) = v.over (first_returned p.workers (rw v.size some_worker) all) in
      let whole = sym (append-nil p.taken) ∙ ap (λ l. p.taken ++ l) (sym drained) ∙ v.order in
      (
        drained,
        whole,
        λ f.
            let once = v.once f in
            let idle = idle_hands f p.workers all in rw (sym whole) (omega arith),
      )
    where
      first_returned :
          (ws : List (Worker T))
          → 1 ≤ length ws
          → ((i : ℕ) (w : Worker T) → get_elem? ws i ≡ some w → w ≡ returned)
          → any_returned ws ≡ true
      first_returned [] h a = absurd (omega arith)
      first_returned (w ∷ ws) h a = rw (a 0 w refl) refl
