-- ===== src/RateLimiter.antt =====
-- include/pulsegate/http/rate_limiter.h and src/http/rate_limiter.cpp: the token bucket. What the code
-- does with a `double` is an interface. Times are numbers of one unit of the clock.
pub mod Buckets
pub mod Clients
pub mod Keys
pub mod Naturals
mod Tests
use pulsegate.Base.{
  ℕ, ◌+◌, ◌-◌, Bool, true, false, not, ◌||◌, leb, if◌then◌else◌, Result, ok, err, invalid_argument,
}

-- `is_positive` is `std::isfinite(value) && value > 0.0`, `of_duration` the count of seconds of a
-- difference of two times, `ceiling` the whole number that `std::ceil` and the cast return.
pub record Double {ℓ} (W : Type ℓ) : Type ℓ where
  pub zero_value : W
  pub one : W
  pub thousand : W
  pub is_positive : W → Bool
  pub equal : W → W → Bool
  pub less : W → W → Bool
  pub less_equal : W → W → Bool
  pub plus : W → W → W
  pub minus : W → W → W
  pub times : W → W → W
  pub divided : W → W → W
  pub of_duration : ℕ → W
  pub ceiling : W → ℕ

pub record TokenBucket (W : Type 0) : Type 0 where
  pub rate_per_second : W
  pub capacity : W
  pub available_tokens : W
  pub last_refill : ℕ

module _ {W : Type 0} ⦃d : Double W⦄ where
  -- `std::min`: the second value only where it is less.
  unfoldable pub min_double : W → W → W
  min_double a b = if d.less b a then b else a

  unfoldable pub init : W → W → ℕ → Result (TokenBucket W)
  init rate burst initial_time =
      if not (d.is_positive rate) || not (d.is_positive burst)
      then err invalid_argument
      else ok (record {
        rate_per_second = rate;
        capacity = burst;
        available_tokens = burst;
        last_refill = initial_time;
      })

  unfoldable pub refill : ℕ → TokenBucket W → TokenBucket W
  unfolding min_double
  refill now b = if leb now b.last_refill then b else record b {
    available_tokens = min_double b.capacity (
        d.plus b.available_tokens
          (d.times (d.of_duration (now - b.last_refill)) b.rate_per_second));
    last_refill = now;
  }

  -- `tokens > available_tokens_`, of a bucket that has been refilled.
  unfoldable pub take_tokens : W → TokenBucket W → Bool × TokenBucket W
  take_tokens tokens b =
      if d.less b.available_tokens tokens
      then (false, b)
      else (true, record b { available_tokens = d.minus b.available_tokens tokens })

  unfoldable pub allow : W → ℕ → TokenBucket W → Result Bool × TokenBucket W
  unfolding refill take_tokens
  allow tokens now b =
      if not (d.is_positive tokens)
      then (err invalid_argument, b)
      else let (allowed, b') = take_tokens tokens (refill now b) in (ok allowed, b')

  -- The time in milliseconds after which the tokens are there.
  unfoldable pub wait_for : W → TokenBucket W → ℕ
  wait_for tokens b =
      if d.less_equal tokens b.available_tokens
      then 0
      else d.ceiling
          (d.times (d.divided (d.minus tokens b.available_tokens) b.rate_per_second) d.thousand)

  unfoldable pub retry_after : W → ℕ → TokenBucket W → Result ℕ × TokenBucket W
  unfolding refill wait_for
  retry_after tokens now b =
      if not (d.is_positive tokens)
      then (err invalid_argument, b)
      else (ok (wait_for tokens (refill now b)), refill now b)
