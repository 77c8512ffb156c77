-- ===== src/RateLimiter/Keys.antt =====
-- The limiter of src/http/rate_limiter.cpp: the count of the clients' keys.
use native.Mathlib.Nat.{mod-lt}
use pulsegate.Base.{
  ℕ, zero, suc, ◌+◌, ◌-◌, ◌%◌, ◌≤◌, ◌<◌, ◌≡◌, refl, sym, subst, Bool, true, false, not, ◌||◌, ◌==◌,
  Option, none, some, List, [], ◌∷◌, Bytes, Dict, lookup, put, length, get_or, set_at,
  length-set_at, replicate, length-replicate, leb, if_cases, if_keeps, Result, ok, err, size_mod,
  sub64, sub64_exact, arith,
}
use pulsegate.RateLimiter.{Double, TokenBucket}
use pulsegate.RateLimiter.Clients.{
  ClientBucket, Limiter, RateLimitDecision, RateLimitConfig, prune_expired, check_entry, check_new,
  check_found, check_client, check_global, recorded, check, init, client_key, with_bucket,
}

unfoldable pub bucket_count {ℓ} : {A : Type ℓ} → List (List A) → ℕ
bucket_count [] = 0
bucket_count (shard ∷ shards) = length shard + bucket_count shards

bucket_count-replicate {ℓ} : (A : Type ℓ) (n : ℕ) → bucket_count {A = A} (replicate n []) ≡ 0
unfolding bucket_count
bucket_count-replicate A zero = refl
bucket_count-replicate A (suc n) = omega (arith, bucket_count-replicate A n)

second_test : (a : Bool) (n : ℕ) (b : Bool) → (a || (n == 0 || b)) ≡ false → 0 < n
second_test true n b h = ground arith
second_test false zero b h = ground arith
second_test false (suc n) b h = omega arith

module _ {ℓ} {A : Type ℓ} where
  bucket_count-set_at :
      (i : ℕ) (shard : List A) (shards : List (List A))
      → i < length shards
      → bucket_count (set_at i shard shards) + length (get_or shards i [])
        ≡ bucket_count shards + length shard
  unfolding bucket_count set_at
  bucket_count-set_at i shard [] h = omega (arith, h)
  bucket_count-set_at zero shard (x ∷ xs) h = omega arith
  bucket_count-set_at (suc i) shard (x ∷ xs) h = omega (arith, h, bucket_count-set_at i shard xs)

  get_or_le : (i : ℕ) (shards : List (List A)) → length (get_or shards i []) ≤ bucket_count shards
  unfolding bucket_count
  get_or_le i [] = omega arith
  get_or_le zero (x ∷ xs) = omega arith
  get_or_le (suc i) (x ∷ xs) = omega (arith, get_or_le i xs)

  length-put_new :
      (k : Bytes) (v : A) (d : Dict A) → lookup k d ≡ none → length (put k v d) ≡ suc (length d)
  unfolding lookup put
  length-put_new k v [] h = refl
  length-put_new k v ((j, w) ∷ d) h = ground (arith, length-put_new k v d)

  length-put_old :
      (k : Bytes) (v w : A) (d : Dict A) → lookup k d ≡ some w → length (put k v d) ≡ length d
  unfolding lookup put
  length-put_old k v w [] h = ground arith
  length-put_old k v w ((j, u) ∷ d) h = ground (arith, length-put_old k v w d)

module _ {W : Type 0} ⦃d : Double W⦄ where
  -- What the loop leaves: `other` counts the keys of the other shards.
  IsPruned : Dict (ClientBucket W) → ℕ → Dict (ClientBucket W) × ℕ → Type 0
  IsPruned shard other r = (r.1 ≡ length r.0 + other) × (length r.0 ≤ length shard)

  prune_expired-IsPruned :
      (ttl now : ℕ) (shard : Dict (ClientBucket W)) (other : ℕ)
      → length shard + other < size_mod
      → IsPruned shard other (prune_expired ttl now shard (length shard + other))
  unfolding prune_expired IsPruned
  prune_expired-IsPruned ttl now [] other h = (refl, omega arith)
  prune_expired-IsPruned ttl now ((key, entry) ∷ rest) other h =
      let dropped : IsPruned rest other
          (prune_expired ttl now rest (sub64 (suc (length rest) + other) 1)) =
        subst (λ n. IsPruned rest other (prune_expired ttl now rest n))
          (omega (arith, h, sub64_exact (suc (length rest) + other) 1))
          (prune_expired-IsPruned ttl now rest other (omega (arith, h))) in
      let kept : IsPruned rest (suc other)
          (prune_expired ttl now rest (suc (length rest) + other)) =
        subst (λ n. IsPruned rest (suc other) (prune_expired ttl now rest n)) (omega arith)
          (prune_expired-IsPruned ttl now rest (suc other) (omega (arith, h))) in
      if_keeps (IsPruned ((key, entry) ∷ rest) other) (leb (entry.last_seen + ttl) now) _ _
        (dropped.0, omega (arith, dropped.1)) (omega (arith, kept.0), omega (arith, kept.1))

  pub record IsCounted (most : ℕ) (l : Limiter W) : Type 0 where
    pub limited : l.config.max_keys ≡ most
    pub has_shard : l.config.per_client ≡ true → 0 < length l.shards
    pub counted : l.key_count ≡ bucket_count l.shards
    pub bounded : l.key_count ≤ l.config.max_keys

  -- What a step on one shard leaves of the limiter, given the shard and the count that it writes.
  set_shard-IsCounted :
      (most : ℕ) (i : ℕ) (shard : Dict (ClientBucket W)) (count : ℕ) (l : Limiter W)
      → i < length l.shards
      → l.config.max_keys ≡ most
      → bucket_count l.shards + length shard ≡ count + length (get_or l.shards i [])
      → count ≤ l.config.max_keys
      → IsCounted most (record l { shards = set_at i shard l.shards; key_count = count })
  set_shard-IsCounted most i shard count l in_range lim here bounded = record {
    limited = lim;
    has_shard = λ _. omega (arith, in_range, length-set_at i shard l.shards);
    counted = omega (arith, here, bucket_count-set_at i shard l.shards in_range);
    bounded = bounded;
  }

  -- A shard that has its share of the count of keys.
  Agrees : ℕ → Dict (ClientBucket W) → ℕ → Limiter W → Type 0
  Agrees i shard count l =
      bucket_count l.shards + length shard ≡ count + length (get_or l.shards i [])

  check_entry-IsCounted :
      (most : ℕ) (now i : ℕ) (key : Bytes) (entry : ClientBucket W) (shard : Dict (ClientBucket W))
      (count : ℕ) (l : Limiter W)
      → i < length l.shards
      → l.config.max_keys ≡ most
      → ((v : ClientBucket W) → Agrees i (put key v shard) count l)
      → count ≤ l.config.max_keys
      → IsCounted most ((check_entry now i key entry shard count l).1)
  unfolding check_entry Agrees
  check_entry-IsCounted most now i key entry shard count l in_range lim here bounded =
      set_shard-IsCounted most i _ count l in_range lim (here _) bounded

  check_new-IsCounted :
      (most : ℕ) (now i : ℕ) (key : Bytes) (made : Result (TokenBucket W))
      (shard : Dict (ClientBucket W)) (count : ℕ) (l : Limiter W)
      → i < length l.shards
      → l.config.max_keys ≡ most
      → lookup key shard ≡ none
      → Agrees i shard count l
      → count < l.config.max_keys
      → l.config.max_keys < size_mod
      → IsCounted most ((check_new now i key made shard count l).1)
  unfolding check_new Agrees
  check_new-IsCounted most now i key (ok b) shard count l in_range lim absent here room small =
      check_entry-IsCounted most now i key (record { bucket = b; last_seen = now }) shard
        (count + 1) l in_range lim (λ v. omega (arith, here, length-put_new key v shard absent))
        (omega (arith, room))
  check_new-IsCounted most now i key (err e) shard count l in_range lim absent here room small =
      let same : sub64 (count + 1) 1 ≡ count =
        omega (arith, room, small, sub64_exact (count + 1) 1) in
      set_shard-IsCounted most i shard _ l in_range lim (omega (arith, here, same))
        (omega (arith, room, same))

  check_found-IsCounted :
      (most : ℕ) (now i : ℕ) (key : Bytes) (found : Option (ClientBucket W))
      (shard : Dict (ClientBucket W)) (count : ℕ) (l : Limiter W)
      → i < length l.shards
      → l.config.max_keys ≡ most
      → lookup key shard ≡ found
      → Agrees i shard count l
      → count ≤ l.config.max_keys
      → l.config.max_keys < size_mod
      → IsCounted most ((check_found now i key found shard count l).1)
  unfolding check_found Agrees
  check_found-IsCounted most now i key (some entry) shard count l in_range lim found here room
        small =
      check_entry-IsCounted most now i key entry shard count l in_range lim
        (λ v. omega (arith, here, length-put_old key v entry shard found)) room
  check_found-IsCounted most now i key none shard count l in_range lim absent here room small =
      if_cases (λ (r : Result RateLimitDecision × Limiter W). IsCounted most (r.1))
        (leb l.config.max_keys count) _ _
        (λ _. set_shard-IsCounted most i shard count l in_range lim here room)
        (λ full.
          check_new-IsCounted most now i key _ shard count l in_range lim absent here
            (ground (arith, full, room)) small)

  check_client-IsCounted :
      (most : ℕ) (hash : Bytes → ℕ) (key : Bytes) (now : ℕ) (l : Limiter W)
      → l.config.per_client ≡ true
      → l.config.max_keys < size_mod
      → IsCounted most l
      → IsCounted most ((check_client hash key now l).1)
  unfolding check_client Agrees IsPruned
  check_client-IsCounted most hash key now l per_client small ok_l =
      let i = hash (client_key key) % length l.shards in
      let in_range : i < length l.shards = mod-lt _ (ok_l.has_shard per_client) in
      let here = get_or_le i l.shards in
      let other = bucket_count l.shards - length (get_or l.shards i []) in
      let total : l.key_count ≡ length (get_or l.shards i []) + other =
        omega (arith, here, ok_l.counted) in
      let pruned : IsPruned (get_or l.shards i []) other
          (prune_expired l.config.idle_ttl now (get_or l.shards i []) l.key_count) =
        subst
          (λ n.
            IsPruned (get_or l.shards i []) other
              (prune_expired l.config.idle_ttl now (get_or l.shards i []) n))
          (sym total)
          (prune_expired-IsPruned l.config.idle_ttl now (get_or l.shards i []) other
            (omega (arith, small, total, ok_l.bounded))) in
      check_found-IsCounted most now i (client_key key) _ _ _ l in_range ok_l.limited refl
        (omega (arith, here, pruned.0)) (omega (arith, total, ok_l.bounded, pruned.0, pruned.1))
        small

  check_global-IsCounted :
      (most : ℕ) (now : ℕ) (bucket : Option (TokenBucket W)) (l : Limiter W)
      → IsCounted most l
      → IsCounted most ((check_global now bucket l).1)
  unfolding check_global
  check_global-IsCounted most now none l h = h
  check_global-IsCounted most now (some b) l h = record {
    limited = h.limited;
    has_shard = h.has_shard;
    counted = h.counted;
    bounded = h.bounded;
  }

  recorded-IsCounted :
      (most : ℕ) (r : Result RateLimitDecision × Limiter W)
      → IsCounted most (r.1)
      → IsCounted most ((recorded r).1)
  unfolding recorded
  recorded-IsCounted most (ok decision, l) h = record {
    limited = h.limited;
    has_shard = h.has_shard;
    counted = h.counted;
    bounded = h.bounded;
  }
  recorded-IsCounted most (err e, l) h = h

  pub check-IsCounted :
      (most : ℕ) (hash : Bytes → ℕ) (key : Bytes) (now : ℕ) (l : Limiter W)
      → l.config.max_keys < size_mod
      → IsCounted most l
      → IsCounted most ((check hash key now l).1)
  unfolding check
  check-IsCounted most hash key now l small h = recorded-IsCounted most _ (
      if_cases (λ (r : Result RateLimitDecision × Limiter W). IsCounted most (r.1))
        l.config.per_client _ _
        (λ per_client. check_client-IsCounted most hash key now l per_client small h)
        (λ _. check_global-IsCounted most now l.global_bucket l h))

  -- The limiter after a sequence of checks, each of a key at a time.
  unfoldable pub checks : (Bytes → ℕ) → List (Bytes × ℕ) → Limiter W → Limiter W
  checks hash [] l = l
  checks hash ((key, now) ∷ calls) l = checks hash calls ((check hash key now l).1)

  checks-IsCounted :
      (most : ℕ) (hash : Bytes → ℕ) (calls : List (Bytes × ℕ)) (l : Limiter W)
      → most < size_mod
      → IsCounted most l
      → IsCounted most (checks hash calls l)
  unfolding checks
  checks-IsCounted most hash [] l small h = h
  checks-IsCounted most hash ((key, now) ∷ calls) l small h =
      checks-IsCounted most hash calls _ small
        (check-IsCounted most hash key now l (omega (arith, small, h.limited)) h)

  -- What the constructor made, where it made a limiter.
  Made : ℕ → Result (Limiter W) → Type 0
  Made most (ok l) = IsCounted most l
  Made most (err e) = e ≡ e

  with_bucket-Made :
      (c : RateLimitConfig W) (r : Result (TokenBucket W))
      → c.per_client ≡ false
      → Made c.max_keys (with_bucket c r)
  unfolding with_bucket Made bucket_count
  with_bucket-Made c (ok b) shared = record {
    limited = refl;
    has_shard = λ h. ground (arith, h, shared);
    counted = refl;
    bounded = omega arith;
  }
  with_bucket-Made c (err e) shared = refl

  init-Made : (c : RateLimitConfig W) (now : ℕ) → Made c.max_keys (init c now)
  unfolding init Made
  init-Made c now =
      if_cases (Made c.max_keys)
        ((not (d.is_positive c.requests_per_second) || not (d.is_positive c.burst))
          || (c.shard_count == 0 || (c.max_keys == 0 || c.idle_ttl == 0)))
        _ _ (λ _. refl)
        (λ valid.
          if_cases (Made c.max_keys) c.per_client _ _
            (λ _. record {
              limited = refl;
              has_shard = λ _.
                  subst (λ n. 0 < n) (sym (length-replicate c.shard_count []))
                    (second_test _ _ _ valid);
              counted = sym (bucket_count-replicate (Bytes × ClientBucket W) c.shard_count);
              bounded = omega arith;
            })
            (λ shared. with_bucket-Made c _ shared))

  -- For every limiter that the constructor makes, with a limit of keys below 2^64, and every sequence of
  -- checks on it, with any hash and any clock: the count of keys is the number of clients' buckets in all
  -- the shards, the limit is the configured one, and the count is at most that.
  pub checks-init :
      (hash : Bytes → ℕ) (calls : List (Bytes × ℕ)) (c : RateLimitConfig W) (now : ℕ)
      (l : Limiter W)
      → c.max_keys < size_mod
      → init c now ≡ ok l
      → IsCounted c.max_keys (checks hash calls l)
  unfolding Made
  checks-init hash calls c now l small made =
      checks-IsCounted c.max_keys hash calls l small
        (subst (Made c.max_keys) made (init-Made c now))
