-- ===== src/RateLimiter/Tests.antt =====
-- The theorems on the limiter at concrete calls, with whole numbers in place of `double`.
use pulsegate.Base.{ℕ, ◌≡◌, refl, true, List, [], ◌∷◌, Bytes, codes, length, ok, arith, none}
use pulsegate.RateLimiter.{Double, TokenBucket}
use pulsegate.RateLimiter
use pulsegate.RateLimiter.Naturals.{whole, whole-Ordered}
use pulsegate.RateLimiter.Buckets.{allows, asks, Holds, use_all, use_all-init}
use pulsegate.RateLimiter.Clients.{RateLimitConfig, Limiter, no_stats, init}
use pulsegate.RateLimiter.Keys.{IsCounted, checks, checks-init}

abbrev three_tokens : TokenBucket ℕ
three_tokens = record { rate_per_second = 2; capacity = 3; available_tokens = 3; last_refill = 10 }

three_tokens-init : RateLimiter.init 2 3 10 ≡ ok three_tokens
unfolding RateLimiter.init whole
three_tokens-init = refl

use_all-init_example :
    Holds 3 (use_all (allows 2 10 ∷ allows 2 10 ∷ asks 2 10 ∷ allows 1 20 ∷ []) three_tokens)
use_all-init_example =
    use_all-init whole-Ordered 2 3 10 (allows 2 10 ∷ allows 2 10 ∷ asks 2 10 ∷ allows 1 20 ∷ [])
      three_tokens three_tokens-init

abbrev two_keys : RateLimitConfig ℕ
two_keys = record {
  requests_per_second = 1;
  burst = 1;
  per_client = true;
  shard_count = 2;
  max_keys = 2;
  idle_ttl = 100;
}

abbrev no_buckets : Limiter ℕ
no_buckets = record {
  config = two_keys;
  global_bucket = none;
  shards = [] ∷ [] ∷ [];
  key_count = 0;
  stats = no_stats;
}

no_buckets-init : init two_keys 0 ≡ ok no_buckets
unfolding init whole
no_buckets-init = refl

abbrev calls : List (Bytes × ℕ)
calls = (codes "10.0.0.1", 1) ∷ (codes "10.0.0.2", 2) ∷ (codes "10.0.0.3", 3) ∷ (codes "", 150) ∷ []

checks-init_example : IsCounted 2 (checks length calls no_buckets)
checks-init_example = checks-init length calls two_keys 0 no_buckets (omega arith) no_buckets-init
