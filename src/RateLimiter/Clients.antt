-- ===== src/RateLimiter/Clients.antt =====
-- The limiter of src/http/rate_limiter.cpp: one bucket, or one bucket for each client in shards. A shard is
-- locked throughout a check, and the shards share only the count of keys, which changes by single atomic
-- operations: a check is one step. `std::hash` is a parameter.
use pulsegate.Base.{
  ℕ, ◌+◌, ◌%◌, ◌^◌, Bool, true, false, not, ◌||◌, Option, none, some, List, [], ◌∷◌, Bytes, codes,
  Dict, lookup, put, length, get_or, replicate, leb, ◌==◌, if◌then◌else◌, sub64, Result, ok, err,
  invalid_argument, undefined_behaviour, set_at,
}
use pulsegate.RateLimiter.{Double, TokenBucket, allow, retry_after}
use pulsegate.RateLimiter

pub record RateLimitConfig (W : Type 0) : Type 0 where
  pub requests_per_second : W
  pub burst : W
  pub per_client : Bool
  pub shard_count : ℕ
  pub max_keys : ℕ
  pub idle_ttl : ℕ

pub record RateLimitDecision : Type 0 where
  pub allowed : Bool
  pub retry_after : ℕ
  pub key_capacity_exhausted : Bool

pub record RateLimitStats : Type 0 where
  pub allowed : ℕ
  pub rejected : ℕ
  pub rejected_key_capacity : ℕ

pub record ClientBucket (W : Type 0) : Type 0 where
  pub bucket : TokenBucket W
  pub last_seen : ℕ

pub record Limiter (W : Type 0) : Type 0 where
  pub config : RateLimitConfig W
  pub global_bucket : Option (TokenBucket W)
  pub shards : List (Dict (ClientBucket W))
  pub key_count : ℕ
  pub stats : RateLimitStats

abbrev pub no_stats : RateLimitStats
no_stats = record { allowed = 0; rejected = 0; rejected_key_capacity = 0 }

-- `fetch_add(1)`
abbrev pub count_up : ℕ → ℕ
count_up n = (n + 1) % 2 ^ 64

unfoldable pub record_decision : RateLimitDecision → RateLimitStats → RateLimitStats
record_decision decision s =
    if decision.allowed then record s { allowed = count_up s.allowed } else record s {
      rejected = count_up s.rejected;
      rejected_key_capacity =
          if decision.key_capacity_exhausted
          then count_up s.rejected_key_capacity
          else s.rejected_key_capacity;
    }

abbrev pub client_key : Bytes → Bytes
client_key [] = codes "unknown"
client_key (c ∷ key) = c ∷ key

module _ {W : Type 0} ⦃d : Double W⦄ where
  -- The limiter with the bucket that its constructor made.
  unfoldable pub with_bucket : RateLimitConfig W → Result (TokenBucket W) → Result (Limiter W)
  with_bucket c (ok bucket) = ok (record {
    config = c;
    global_bucket = some bucket;
    shards = [];
    key_count = 0;
    stats = no_stats;
  })
  with_bucket c (err e) = err e

  unfoldable pub init : RateLimitConfig W → ℕ → Result (Limiter W)
  unfolding with_bucket
  init c initial_time =
      if (not (d.is_positive c.requests_per_second) || not (d.is_positive c.burst))
        || (c.shard_count == 0 || (c.max_keys == 0 || c.idle_ttl == 0))
      then err invalid_argument
      else if c.per_client
      then ok (record {
        config = c;
        global_bucket = none;
        shards = replicate c.shard_count [];
        key_count = 0;
        stats = no_stats;
      })
      else with_bucket c (RateLimiter.init c.requests_per_second c.burst initial_time)

  -- The loop of `pruneExpired`, with the count of keys. `now - t >= ttl` is `t + ttl <= now`.
  unfoldable pub prune_expired : ℕ → ℕ → Dict (ClientBucket W) → ℕ → Dict (ClientBucket W) × ℕ
  prune_expired ttl now [] count = ([], count)
  prune_expired ttl now ((key, entry) ∷ rest) count =
      let dropped = prune_expired ttl now rest (sub64 count 1) in
      let kept = prune_expired ttl now rest count in
      if leb (entry.last_seen + ttl) now then dropped else ((key, entry) ∷ kept.0, kept.1)

  unfoldable pub after_wait : Result ℕ × TokenBucket W → Result RateLimitDecision × TokenBucket W
  after_wait (ok wait, b) =
      (ok (record { allowed = false; retry_after = wait; key_capacity_exhausted = false }), b)
  after_wait (err e, b) = (err e, b)

  unfoldable pub after_allow :
      ℕ → Result Bool × TokenBucket W → Result RateLimitDecision × TokenBucket W
  unfolding after_wait
  after_allow now (ok true, b) =
      (ok (record { allowed = true; retry_after = 0; key_capacity_exhausted = false }), b)
  after_allow now (ok false, b) = after_wait (retry_after d.one now b)
  after_allow now (err e, b) = (err e, b)

  -- The decision of a bucket: `allow` and, where it refuses, `retryAfter`.
  unfoldable pub decide : ℕ → TokenBucket W → Result RateLimitDecision × TokenBucket W
  unfolding after_allow
  decide now b = after_allow now (allow d.one now b)

  -- The end of `checkClient`, with the entry of the key, in the shard at an index.
  unfoldable pub check_entry :
      ℕ
      → ℕ
      → Bytes
      → ClientBucket W
      → Dict (ClientBucket W)
      → ℕ
      → Limiter W
      → Result RateLimitDecision × Limiter W
  unfolding decide
  check_entry now i key entry shard count l =
      let (r, b) = decide now entry.bucket in
      (
        r,
        record l {
          shards = set_at i (put key (record { bucket = b; last_seen = now }) shard) l.shards;
          key_count = count;
        },
      )

  -- The entry of a key that is new, with what the constructor of the bucket did. On an exception the count
  -- is as it was.
  unfoldable pub check_new :
      ℕ
      → ℕ
      → Bytes
      → Result (TokenBucket W)
      → Dict (ClientBucket W)
      → ℕ
      → Limiter W
      → Result RateLimitDecision × Limiter W
  unfolding check_entry
  check_new now i key (ok b) shard count l =
      check_entry now i key (record { bucket = b; last_seen = now }) shard (count + 1) l
  check_new now i key (err e) shard count l =
      (err e, record l { shards = set_at i shard l.shards; key_count = sub64 (count + 1) 1 })

  unfoldable pub check_found :
      ℕ
      → ℕ
      → Bytes
      → Option (ClientBucket W)
      → Dict (ClientBucket W)
      → ℕ
      → Limiter W
      → Result RateLimitDecision × Limiter W
  unfolding check_new
  check_found now i key (some entry) shard count l = check_entry now i key entry shard count l
  check_found now i key none shard count l =
      if leb l.config.max_keys count
      then (
        ok (record { allowed = false; retry_after = 1000; key_capacity_exhausted = true }),
        record l { shards = set_at i shard l.shards; key_count = count },
      )
      else check_new now i key (RateLimiter.init l.config.requests_per_second l.config.burst now)
          shard count l

  -- The hash of the key chooses the shard. A limiter with `per_client` has one shard at least.
  unfoldable pub check_client :
      (Bytes → ℕ) → Bytes → ℕ → Limiter W → Result RateLimitDecision × Limiter W
  unfolding check_found prune_expired
  check_client hash given now l =
      let key = client_key given in
      let i = hash key % length l.shards in
      let (shard, count) = prune_expired l.config.idle_ttl now (get_or l.shards i []) l.key_count in
      check_found now i key (lookup key shard) shard count l

  -- The one bucket; with `per_client` there is none, and no check asks for it.
  unfoldable pub check_global :
      ℕ → Option (TokenBucket W) → Limiter W → Result RateLimitDecision × Limiter W
  unfolding decide
  check_global now none l = (err undefined_behaviour, l)
  check_global now (some bucket) l =
      let (r, b) = decide now bucket in (r, record l { global_bucket = some b })

  -- An exception leaves the counts of decisions as they are.
  unfoldable pub recorded :
      Result RateLimitDecision × Limiter W → Result RateLimitDecision × Limiter W
  unfolding record_decision
  recorded (ok decision, l) = (ok decision, record l { stats = record_decision decision l.stats })
  recorded (err e, l) = (err e, l)

  unfoldable pub check : (Bytes → ℕ) → Bytes → ℕ → Limiter W → Result RateLimitDecision × Limiter W
  unfolding check_client check_global recorded
  check hash key now l = recorded (
      if l.config.per_client
      then check_client hash key now l
      else check_global now l.global_bucket l)
