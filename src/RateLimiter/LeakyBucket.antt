-- ===== src/RateLimiter/LeakyBucket.antt =====
-- The class LeakyBucket of src/rate-limiter/leak_bucket.hpp. `is_lock` has no effect there.
use cpp_wtfsc.Base.{Bool, true, false, if◌then◌else◌}
use cpp_wtfsc.RateLimiter.{Amount, Clock, maximum}

pub record LeakyBucket (T Time : Type 0) : Type 0 where
  pub capacity : T
  pub used_tokens : T
  pub rate : T
  pub last_time : Time

module _ {T : Type 0} (amount : Amount T) (clock : Clock T) where
  unfoldable pub init : T → T → Bool → clock.Time → LeakyBucket T clock.Time
  init capacity leak_rate is_lock now = record {
    capacity = capacity;
    used_tokens = amount.zero;
    rate = leak_rate;
    last_time = now;
  }

  unfoldable pub get_tokens : LeakyBucket T clock.Time → clock.Time → T × LeakyBucket T clock.Time
  get_tokens b now =
      let used =
        maximum amount amount.zero
          (amount.minus b.used_tokens (clock.earned b.rate b.last_time now)) in
      (used, record b { used_tokens = used; last_time = now })

  -- The clock is read once by `get_tokens`, and again after an amount was let in.
  unfoldable pub consume :
      LeakyBucket T clock.Time → clock.Time → clock.Time → T → Bool × LeakyBucket T clock.Time
  unfolding get_tokens
  consume b now later tokens =
      let (level, b') = get_tokens b now in
      if amount.leb (amount.plus tokens level) b.capacity
      then (true, record b' { used_tokens = amount.plus b'.used_tokens tokens; last_time = later })
      else (false, b')
