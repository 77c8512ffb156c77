-- ===== src/RateLimiter/Naturals.antt =====
-- Whole numbers in place of `double`, for runs of the limiter on given inputs.
use pulsegate.Base.{ℕ, ◌+◌, ◌-◌, ◌*◌, ◌/◌, ltb, leb, ◌==◌, arith}
use pulsegate.RateLimiter.{Double}
use pulsegate.RateLimiter.Buckets.{Ordered}

instance unfoldable pub whole : Double ℕ
whole = record {
  zero_value = 0;
  one = 1;
  thousand = 1000;
  is_positive = λ a. ltb 0 a;
  equal = λ a b. a == b;
  less = ltb;
  less_equal = leb;
  plus = λ a b. a + b;
  minus = λ a b. a - b;
  times = λ a b. a * b;
  divided = λ a b. a / b;
  of_duration = λ t. t;
  ceiling = λ a. a;
}

pub whole-Ordered : Ordered ℕ
unfolding whole
whole-Ordered = record {
  less_irrefl = λ a. ground arith;
  less_asymm = λ a b h. ground arith;
  less_minus = λ top a t positive h. ground arith;
}
