-- ===== src/RateLimiter.antt =====
-- The three rate limiters of src/rate-limiter. Their amounts are `double`s and their time is that of
-- `std::chrono::system_clock`: an interface gives the operations that the source uses, with the laws
-- of floating-point numbers, rounding included, as long as none is NaN or infinite.
pub mod TokenBucket
pub mod LeakyBucket
pub mod OneToken
pub mod Levels
mod Tests
use cpp_wtfsc.Base.{◌≡◌, ◌⊎◌, Bool, true, not, if◌then◌else◌}

pub record Amount (T : Type 0) : Type 0 where
  pub zero : T
  pub one : T
  pub plus : T → T → T
  pub minus : T → T → T
  pub leb : T → T → Bool
  pub leb_refl : (a : T) → leb a a ≡ true
  pub leb_trans : (a b c : T) → leb a b ≡ true → leb b c ≡ true → leb a c ≡ true
  pub leb_total : (a b : T) → (leb a b ≡ true) ⊎ (leb b a ≡ true)
  pub zero_le_one : leb zero one ≡ true
  pub plus_comm : (a b : T) → plus a b ≡ plus b a
  pub plus_grows : (a b : T) → leb zero b ≡ true → leb a (plus a b) ≡ true
  pub minus_shrinks : (a b : T) → leb zero b ≡ true → leb (minus a b) a ≡ true
  pub minus_nonneg : (a b : T) → leb b a ≡ true → leb zero (minus a b) ≡ true

-- A clock: its times, and the amount `(rate * (now - last)).count()` that a rate gives in between. It
-- is negative when the clock was set back.
pub record Clock (T : Type 0) : Type 1 where
  pub Time : Type 0
  pub earned : T → Time → Time → T

module _ {T : Type 0} (amount : Amount T) where
  -- `a < b`
  abbrev pub less : T → T → Bool
  less a b = not (amount.leb b a)

  -- `std::min` and `std::max`
  abbrev pub minimum : T → T → T
  minimum a b = if less b a then b else a

  abbrev pub maximum : T → T → T
  maximum a b = if less a b then b else a
