-- ===== src/RateLimiter/Levels.antt =====
-- The amounts that the buckets of src/rate-limiter hold stay between zero and the capacity.
use cpp_wtfsc.Base.{◌≡◌, inl, inr, refl, true, if◌then◌else◌, Bool-cases, arith}
use cpp_wtfsc.RateLimiter.{Amount, Clock, less, minimum, maximum}
use cpp_wtfsc.RateLimiter.TokenBucket
use cpp_wtfsc.RateLimiter.LeakyBucket
use cpp_wtfsc.RateLimiter.OneToken

module _ {T : Type 0} (amount : Amount T) where
  -- Not less than zero, and not more than the capacity.
  abbrev pub Within : T → T → Type 0
  Within capacity t = (amount.leb amount.zero t ≡ true) × (amount.leb t capacity ≡ true)

  less_le : (a b : T) → less amount a b ≡ true → amount.leb a b ≡ true
  less_le a b h = elim (amount.leb_total a b) [ inl e ↦ e | inr e ↦ absurd (ground arith) ]

  minimum-Within :
      (capacity t : T)
      → amount.leb amount.zero capacity ≡ true
      → amount.leb amount.zero t ≡ true
      → Within capacity (minimum amount capacity t)
  minimum-Within capacity t h k = elim (Bool-cases (amount.leb capacity t)) [
    | inl e ↦ rw e (h, amount.leb_refl capacity)
    | inr e ↦ rw e (k, less_le t capacity (rw e refl))
  ]

  maximum-Within :
      (capacity t : T)
      → amount.leb amount.zero capacity ≡ true
      → amount.leb t capacity ≡ true
      → Within capacity (maximum amount amount.zero t)
  maximum-Within capacity t h k = elim (Bool-cases (amount.leb t amount.zero)) [
    | inl e ↦ rw e (amount.leb_refl amount.zero, h)
    | inr e ↦ rw e (less_le amount.zero t (rw e refl), k)
  ]

  -- What is left after an amount that was there.
  rest-Within :
      (capacity t x : T)
      → Within capacity t
      → amount.leb amount.zero x ≡ true
      → amount.leb x t ≡ true
      → Within capacity (amount.minus t x)
  rest-Within capacity t x w h k =
      (amount.minus_nonneg t x k, amount.leb_trans _ _ _ (amount.minus_shrinks t x h) w.1)

module _ {T : Type 0} (amount : Amount T) (clock : Clock T) where
  refilled :
      (capacity t e : T)
      → Within amount capacity t
      → amount.leb amount.zero e ≡ true
      → Within amount capacity (minimum amount capacity (amount.plus t e))
        × (amount.leb t (minimum amount capacity (amount.plus t e)) ≡ true)
  refilled capacity t e w h =
      let grown = amount.plus_grows t e h in
      (
        minimum-Within amount capacity (amount.plus t e) (amount.leb_trans _ _ _ w.0 w.1)
            (amount.leb_trans _ _ _ w.0 grown),
        elim (Bool-cases (amount.leb capacity (amount.plus t e))) [
          | inl f ↦ rw f w.1
          | inr f ↦ rw f grown
        ],
      )

  get_tokens-Within :
      (b : TokenBucket.TokenBucket T clock.Time) (now : clock.Time)
      → Within amount b.capacity b.tokens
      → amount.leb amount.zero (clock.earned b.rate b.last_time now) ≡ true
      → let (level, b') = TokenBucket.get_tokens amount clock b now in
        Within amount b.capacity level
        × (amount.leb b.tokens level ≡ true)
        × (b'.tokens ≡ level)
        × (b'.capacity ≡ b.capacity)
  unfolding TokenBucket.get_tokens
  get_tokens-Within b now w h = elim (Bool-cases (amount.leb b.capacity b.tokens)) [
    | inl e ↦ rw e (w, amount.leb_refl b.tokens, refl, refl)
    | inr e ↦ let (v, g) = refilled b.capacity b.tokens _ w h in rw e (v, g, refl, refl)
  ]

  -- A call of `consume` while the clock has not gone back, with an amount that is not negative: it
  -- answers whether `get_tokens` finds that amount, which is no less than the bucket held before. It
  -- takes the amount only then, and leaves a bucket of the same capacity that holds between zero and
  -- the capacity if the bucket did before.
  pub consume-Within :
      (b : TokenBucket.TokenBucket T clock.Time) (now : clock.Time) (x : T)
      → Within amount b.capacity b.tokens
      → amount.leb amount.zero x ≡ true
      → amount.leb amount.zero (clock.earned b.rate b.last_time now) ≡ true
      → let level = (TokenBucket.get_tokens amount clock b now).0 in
        let (granted, b') = TokenBucket.consume amount clock b now x in
        (amount.leb b.tokens level ≡ true)
        × (granted ≡ amount.leb x level)
        × (b'.tokens ≡ (if granted then amount.minus level x else level))
        × (b'.capacity ≡ b.capacity)
        × Within amount b'.capacity b'.tokens
  unfolding TokenBucket.consume
  consume-Within b now x w h k =
      let (v, g, e, f) = get_tokens-Within b now w k in
      let level = (TokenBucket.get_tokens amount clock b now).0 in
      elim (Bool-cases (amount.leb x level)) [
        | inl y ↦
            let r = rest-Within amount b.capacity level x v h y in
            rw y (g, refl, refl, f, (r.0, rw f r.1))
        | inr y ↦ rw y (g, refl, refl, f, (v.0, rw f v.1))
      ]

  -- A full bucket does not take note of the time. If it was last refilled so long ago that the rate has
  -- earned the whole capacity since, it lets in twice its capacity at one and the same moment.
  consume_twice :
      (b : TokenBucket.TokenBucket T clock.Time) (now : clock.Time)
      → amount.leb amount.zero b.capacity ≡ true
      → b.tokens ≡ b.capacity
      → amount.leb b.capacity (clock.earned b.rate b.last_time now) ≡ true
      → let (first, b') = TokenBucket.consume amount clock b now b.capacity in
        (first ≡ true) × ((TokenBucket.consume amount clock b' now b.capacity).0 ≡ true)
  unfolding TokenBucket.consume
  consume_twice b now h full long =
      let top = amount.leb_refl b.capacity in
      let left = amount.minus_nonneg b.capacity b.capacity top in
      let earned = clock.earned b.rate b.last_time now in
      let enough : amount.leb b.capacity (amount.plus (amount.minus b.capacity b.capacity) earned)
          ≡ true =
        rw (amount.plus_comm (amount.minus b.capacity b.capacity) earned)
          (amount.leb_trans _ _ _ long (amount.plus_grows earned _ left)) in
      elim (Bool-cases (amount.leb b.capacity (amount.minus b.capacity b.capacity))) [
        | inl y ↦ rw (full, top) (rw top refl, rw (top, y, y) refl)
        | inr y ↦ rw (full, top) (rw top refl, rw (top, y, enough, top) refl)
      ]

  -- A call of `consume` while the clock has not gone back, with an amount that is not negative: it
  -- answers whether the amount fits on top of the level that `get_tokens` finds, which is no more than
  -- the bucket held before. It adds the amount only then, and leaves a bucket of the same capacity that
  -- holds between zero and the capacity if the bucket did before.
  consume-Within_leaky :
      (b : LeakyBucket.LeakyBucket T clock.Time) (now later : clock.Time) (x : T)
      → Within amount b.capacity b.used_tokens
      → amount.leb amount.zero x ≡ true
      → amount.leb amount.zero (clock.earned b.rate b.last_time now) ≡ true
      → let level = (LeakyBucket.get_tokens amount clock b now).0 in
        let (granted, b') = LeakyBucket.consume amount clock b now later x in
        (amount.leb level b.used_tokens ≡ true)
        × (granted ≡ amount.leb (amount.plus x level) b.capacity)
        × (b'.used_tokens ≡ (if granted then amount.plus level x else level))
        × (b'.capacity ≡ b.capacity)
        × Within amount b'.capacity b'.used_tokens
  unfolding LeakyBucket.consume
  consume-Within_leaky b now later x w h k =
      let level = (LeakyBucket.get_tokens amount clock b now).0 in
      let shrunk = amount.minus_shrinks b.used_tokens (clock.earned b.rate b.last_time now) k in
      let v : Within amount b.used_tokens level =
        maximum-Within amount b.used_tokens _ w.0 shrunk in
      elim (Bool-cases (amount.leb (amount.plus x level) b.capacity)) [
        | inl y ↦ rw y (
          v.1,
          refl,
          refl,
          refl,
          (
            amount.leb_trans _ _ _ v.0 (amount.plus_grows level x h),
            rw (amount.plus_comm level x) y,
          ),
        )
        | inr y ↦ rw y (v.1, refl, refl, refl, (v.0, amount.leb_trans _ _ _ v.1 w.1))
      ]

  -- A call of `get_token` while the clock has not gone back hands out a token exactly if the bucket then
  -- holds one, and leaves between zero and the capacity if it held that much before.
  get_token-Within :
      (b : OneToken.TokenBucket T clock.Time) (now : clock.Time)
      → Within amount b.capacity b.tokens
      → amount.leb amount.zero (clock.earned b.rate b.last_time now) ≡ true
      → let raised = amount.plus b.tokens (clock.earned b.rate b.last_time now) in
        let held = if less amount b.capacity raised then b.capacity else raised in
        let (granted, b') = OneToken.get_token amount clock b now in
        (amount.leb b.tokens held ≡ true)
        × (granted ≡ amount.leb amount.one held)
        × (b'.tokens ≡ (if granted then amount.minus held amount.one else held))
        × (b'.capacity ≡ b.capacity)
        × Within amount b'.capacity b'.tokens
  unfolding OneToken.get_token
  get_token-Within b now w k =
      let raised = amount.plus b.tokens (clock.earned b.rate b.last_time now) in
      let grown = amount.plus_grows b.tokens _ k in
      let held = if less amount b.capacity raised then b.capacity else raised in
      let (v, g) : Within amount b.capacity held × (amount.leb b.tokens held ≡ true) =
        elim (Bool-cases (amount.leb raised b.capacity)) [
          | inl e ↦ rw e ((amount.leb_trans _ _ _ w.0 grown, e), grown)
          | inr e ↦ rw e ((amount.leb_trans _ _ _ w.0 w.1, amount.leb_refl b.capacity), w.1)
        ] in
      elim (Bool-cases (amount.leb amount.one held)) [
        | inl y ↦
            let r = rest-Within amount b.capacity held amount.one v amount.zero_le_one y in
            rw y (g, refl, refl, refl, r)
        | inr y ↦ rw y (g, refl, refl, refl, v)
      ]
