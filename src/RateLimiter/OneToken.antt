-- ===== src/RateLimiter/OneToken.antt =====
-- The class TokenBucket of src/rate-limiter/token_bucket.cpp, which hands out one token per call.
use cpp_wtfsc.Base.{Bool, true, false, if◌then◌else◌}
use cpp_wtfsc.RateLimiter.{Amount, Clock, less}

pub record TokenBucket (T Time : Type 0) : Type 0 where
  pub rate : T
  pub capacity : T
  pub tokens : T
  pub last_time : Time

module _ {T : Type 0} (amount : Amount T) (clock : Clock T) where
  unfoldable pub init : T → T → clock.Time → TokenBucket T clock.Time
  init rate capacity now = record {
    rate = rate;
    capacity = capacity;
    tokens = amount.zero;
    last_time = now;
  }

  unfoldable pub get_token : TokenBucket T clock.Time → clock.Time → Bool × TokenBucket T clock.Time
  get_token b now =
      let raised = amount.plus b.tokens (clock.earned b.rate b.last_time now) in
      let held = if less amount b.capacity raised then b.capacity else raised in
      let b' = record b { tokens = held; last_time = now } in
      if less amount held amount.one
      then (false, b')
      else (true, record b' { tokens = amount.minus held amount.one })
