-- ===== src/LatchFree/Stack/Tests.antt =====
-- A stack of src/latch-free/stack.cpp after one push, with a second one under way.
use cpp_wtfsc.Base.{ℕ, refl, List, [], ◌∷◌, none, some}
use cpp_wtfsc.LatchFree.Stack.{
  idle, pushing, pushed, Stack, update, push_load, push_exchange, Reach, begin, step,
}
use cpp_wtfsc.LatchFree.Stack.Linear.{Chain, Runs, stack_linear}

abbrev one_pushed : Stack ℕ
one_pushed = record {
  nodes = record { value = 5; next = none } ∷ [];
  head = some 0;
  threads = update (update (λ i. idle) 0 (pushing 5 none)) 0 idle;
  log = pushed 5 ∷ [];
}

one_pushed-Reach : Reach none one_pushed
one_pushed-Reach = step (step begin (push_load 0 5 refl)) (push_exchange 0 refl refl)

stack_linear_example : (xs : List ℕ) × Chain one_pushed.nodes (some 0) xs × Runs (pushed 5 ∷ []) xs
stack_linear_example = stack_linear none one_pushed refl one_pushed-Reach
