-- ===== src/Matrix/Scalar.antt =====
-- What the matrices use of their template argument: `T()`, the arithmetic operators and `==`. A
-- client's type is a parameter; the laws are those that the theorems need.
use cpp_wtfsc.Base.{◌≡◌, ◌↔◌, Bool, true, ℕ, ◌+◌, ◌-◌, ◌*◌, ◌==◌, ==_iff}

pub record Scalar (T : Type 0) : Type 0 where
  pub zero : T
  pub plus : T → T → T
  pub minus : T → T → T
  pub times : T → T → T
  pub beq : T → T → Bool
  pub beq_iff : (a b : T) → (beq a b ≡ true) ↔ (a ≡ b)

-- Natural numbers, as a template argument of the tests.
abbrev pub naturals : Scalar ℕ
naturals = record { zero = 0; plus = ◌+◌; minus = ◌-◌; times = ◌*◌; beq = ◌==◌; beq_iff = ==_iff }
