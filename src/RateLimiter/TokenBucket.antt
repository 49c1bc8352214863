-- ===== src/RateLimiter/TokenBucket.antt =====
-- The class TokenBucket of src/rate-limiter/token_bucket.hpp.
use cpp_wtfsc.Base.{Bool, true, false, if◌then◌else◌}
use cpp_wtfsc.RateLimiter.{Amount, Clock, less, minimum}

pub record TokenBucket (T Time : Type 0) : Type 0 where
  pub capacity : T
  pub tokens : T
  pub rate : T
  pub last_time : Time

module _ {T : Type 0} (amount : Amount T) (clock : Clock T) where
  unfoldable pub init : T → T → clock.Time → TokenBucket T clock.Time
  init capacity rate now = record {
    capacity = capacity;
    tokens = capacity;
    rate = rate;
    last_time = now;
  }

  -- The clock is read only when the bucket is not full.
  unfoldable pub get_tokens : TokenBucket T clock.Time → clock.Time → T × TokenBucket T clock.Time
  get_tokens b now =
      let b' =
        (if less amount b.tokens b.capacity
          then record b {
            tokens =
                minimum amount b.capacity
                  (amount.plus b.tokens (clock.earned b.rate b.last_time now));
            last_time = now;
          }
          else b) in
      (b'.tokens, b')

  unfoldable pub consume :
      TokenBucket T clock.Time → clock.Time → T → Bool × TokenBucket T clock.Time
  unfolding get_tokens
  consume b now tokens =
      let (level, b') = get_tokens b now in
      if amount.leb tokens level
      then (true, record b' { tokens = amount.minus b'.tokens tokens })
      else (false, b')
