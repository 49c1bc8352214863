-- ===== src/Demo/LfuCache/Tests.antt =====
-- Concrete calls of src/demo/lfu.cpp, with natural numbers as values and 99 for the -1.
use cpp_wtfsc.Base.{ℕ, ◌≡◌, refl, true, false, List, [], ◌∷◌, Option, none, some, arith}
use cpp_wtfsc.Demo.LfuCache.{Node, Cache, init, get, put, erase, promote, evict, min_freq}
use cpp_wtfsc.Demo.LfuCache.Represents.{Rep}
use cpp_wtfsc.Demo.LfuCache.Sessions.{Call, get_call, put_call, run, Ends, lfu_refines}
use cpp_wtfsc.Demo.LfuCache.Erases.{erase_dangles}

-- The calls of `main`, and one more.
abbrev main_calls : List (Call ℕ)
main_calls =
    put_call 2 1
    ∷ put_call 2 2
    ∷ get_call 2
    ∷ put_call 1 1
    ∷ put_call 4 1
    ∷ get_call 2
    ∷ get_call 1
    ∷ []

abbrev answers : Option (List ℕ × Cache ℕ) → Option (List ℕ)
answers none = none
answers (some (vals, c)) = some vals

main_run : answers (run (λ i. false) 99 (init 2) main_calls) ≡ some (2 ∷ 2 ∷ 99 ∷ [])
unfolding init get put promote evict min_freq
main_run = refl

lfu_refines_example : Ends (λ i. false) 99 2 (init 2) (0, []) main_calls
lfu_refines_example =
    lfu_refines (λ i. false) 99 2 main_calls (λ i. refl) (omega arith) (omega arith)

-- The first insertion by `get` is a rehash.
rehash_run : run {V = ℕ} (λ i. true) 99 (init 2) (put_call 5 50 ∷ get_call 5 ∷ []) ≡ none
unfolding init get put promote
rehash_run = refl

-- Of two keys used once the older one goes.
tie_run :
    answers (
      run
        (λ i. false)
        99
        (init 2)
        (put_call 1 10 ∷ put_call 2 20 ∷ put_call 3 30 ∷ get_call 1 ∷ get_call 2 ∷ get_call 3 ∷ []))
    ≡ some (99 ∷ 20 ∷ 30 ∷ [])
unfolding init get put promote evict min_freq
tie_run = refl

abbrev one_node : Node ℕ
one_node = record { id = 0; key = 5; val = 50; freq = 1 }

-- After the one call put(5, 50).
abbrev one_entry : Cache ℕ
one_entry = record {
  capacity = 2;
  key_table = (5, 0) ∷ [];
  freq_table = (1, 0) ∷ [];
  freq_list = record { id = 0; nodes = one_node ∷ [] } ∷ [];
  fresh = 1;
}

one_entry-put : put (λ i. false) (init 2) 5 50 ≡ some one_entry
unfolding put init
one_entry-put = refl

one_entry-Rep : Rep one_entry (one_node ∷ [])
one_entry-Rep = record {
  order = (1, 0) ∷ [];
  lists = record {
    ascends = (tt, tt);
    shape = refl;
    freqs = λ f. refl;
    freq_unique = (refl, tt);
    filled = λ f. ground arith;
    unused = λ i h. (omega arith, tt);
    positive = refl;
  };
  keys = λ k. ground arith;
  key_unique = (refl, tt);
  size = refl;
  distinct = (refl, refl, tt);
  old = λ i h. ground arith;
}

erase_dangles_example :
    (c' : Cache ℕ) × (erase one_entry 5 ≡ some c')
    × (get (λ i. false) 99 c' 5 ≡ none)
    × ((val : ℕ) → put (λ i. false) c' 5 val ≡ none)
erase_dangles_example =
    erase_dangles (λ i. false) 99 one_entry (one_node ∷ []) one_entry-Rep (omega arith) 5 one_node
      refl
