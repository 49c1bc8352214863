-- ===== src/Hashmap/Tests.antt =====
-- Runs of the map of src/hashmap/concurrent_map.cpp, with keys that are their own hash.
use cpp_wtfsc.Base.{ℕ, ◌≡◌, refl, List, [], ◌∷◌, none, some, arith, nat_eq}
use cpp_wtfsc.Hashmap.{ConcurrentMap, init, get_bucket, get, set, erase, run}
use cpp_wtfsc.Hashmap.Buckets
use cpp_wtfsc.Hashmap.Reference
use cpp_wtfsc.Hashmap.Reference.{Call}
use cpp_wtfsc.Hashmap.Refine.{IsValid, view, init-IsValid, run_refines}

program : Unit {0}
unfolding init get_bucket get set erase run Buckets.find Buckets.get Buckets.set Buckets.erase
program = tt

abbrev hash : ℕ → ℕ
hash k = k

-- 1 and 4 share a bucket of three.
abbrev calls : List (Call ℕ ℕ)
calls =
    Call.set 1 10
    ∷ Call.set 4 40
    ∷ Call.get 4 0
    ∷ Call.set 1 11
    ∷ Call.erase 4
    ∷ Call.get 1 0
    ∷ Call.get 4 7
    ∷ []

run-calls : run hash (init 3) calls ≡ some (40 ∷ 11 ∷ 7 ∷ [])
unfolding program
run-calls = refl

-- A map with no bucket takes a remainder by zero.
run-no_bucket : run hash (init 0) calls ≡ none
unfolding program
run-no_bucket = refl

abbrev empty : ConcurrentMap ℕ ℕ
empty = record { buckets = [] ∷ [] ∷ [] ∷ [] }

empty-IsValid : IsValid hash empty
unfolding init
empty-IsValid = (init-IsValid {V = ℕ} hash 3 (omega arith)).0

run_refines_example : run hash empty calls ≡ some (Reference.run (view hash empty) calls)
run_refines_example = run_refines hash calls empty empty-IsValid
