-- ===== src/RateLimiter/Tests.antt =====
-- Concrete buckets of src/rate-limiter over the natural numbers, with a clock that counts seconds.
use cpp_wtfsc.Base.{ℕ, ◌+◌, ◌-◌, ◌*◌, ◌≡◌, ◌⊎◌, refl, true, false, leb, if◌then◌else◌, arith}
use cpp_wtfsc.RateLimiter.{Amount, Clock}
use cpp_wtfsc.RateLimiter.TokenBucket
use cpp_wtfsc.RateLimiter.LeakyBucket
use cpp_wtfsc.RateLimiter.OneToken
use cpp_wtfsc.RateLimiter.Levels.{Within, consume-Within}

either_way : (a b : ℕ) → (leb a b ≡ true) ⊎ (leb b a ≡ true)
either_way a b = ground arith

abbrev naturals : Amount ℕ
naturals = record {
  zero = 0;
  one = 1;
  plus = ◌+◌;
  minus = ◌-◌;
  leb = leb;
  leb_refl = λ a. ground arith;
  leb_trans = λ a b c h k. ground arith;
  leb_total = either_way;
  zero_le_one = refl;
  plus_comm = λ a b. omega arith;
  plus_grows = λ a b h. ground arith;
  minus_shrinks = λ a b h. ground arith;
  minus_nonneg = λ a b h. ground arith;
}

abbrev seconds : Clock ℕ
seconds = record { Time = ℕ; earned = λ rate last now. rate * (now - last) }

abbrev bucket : TokenBucket.TokenBucket ℕ ℕ
bucket = record { capacity = 10; tokens = 3; rate = 2; last_time = 5 }

abbrev full_bucket : TokenBucket.TokenBucket ℕ ℕ
full_bucket = record { capacity = 10; tokens = 10; rate = 2; last_time = 0 }

abbrev leaky_bucket : LeakyBucket.LeakyBucket ℕ ℕ
leaky_bucket = record { capacity = 10; used_tokens = 6; rate = 2; last_time = 5 }

abbrev one_token_bucket : OneToken.TokenBucket ℕ ℕ
one_token_bucket = record { rate = 2; capacity = 10; tokens = 0; last_time = 5 }

test_consume :
    TokenBucket.consume naturals seconds bucket 7 6
    ≡ (true, record bucket { tokens = 1; last_time = 7 })
unfolding TokenBucket.consume
test_consume = refl

test_leak :
    LeakyBucket.consume naturals seconds leaky_bucket 7 8 9
    ≡ (false, record leaky_bucket { used_tokens = 2; last_time = 7 })
unfolding LeakyBucket.consume
test_leak = refl

consume-Within_example :
    let level = (TokenBucket.get_tokens naturals seconds bucket 7).0 in
    let (granted, b') = TokenBucket.consume naturals seconds bucket 7 6 in
    (leb 3 level ≡ true)
    × (granted ≡ leb 6 level)
    × (b'.tokens ≡ (if granted then level - 6 else level))
    × (b'.capacity ≡ 10)
    × Within naturals b'.capacity b'.tokens
consume-Within_example = consume-Within naturals seconds bucket 7 6 (refl, refl) refl refl

-- Four tokens came in, one is taken.
one_token_taken :
    OneToken.get_token naturals seconds one_token_bucket 7
    ≡ (true, record { rate = 2; capacity = 10; tokens = 3; last_time = 7 })
unfolding OneToken.get_token
one_token_taken = refl
