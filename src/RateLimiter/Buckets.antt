-- ===== src/RateLimiter/Buckets.antt =====
-- The token bucket of src/http/rate_limiter.cpp: what it can hold.
use pulsegate.Base.{
  ℕ, ◌-◌, ◌≡◌, refl, sym, subst, Bool, true, false, not, ◌||◌, leb, List, [], ◌∷◌, if_cases, Result,
  ok, err, arith,
}
use pulsegate.RateLimiter.{
  Double, TokenBucket, min_double, init, refill, take_tokens, allow, retry_after,
}

-- `std::isfinite` and the order of IEEE 754, which hold of every `double`, NaN as well: a value is not
-- less than itself, the order is not both ways round, and less is left once something positive is taken.
pub record Ordered (W : Type 0) ⦃d : Double W⦄ : Type 0 where
  pub less_irrefl : (a : W) → d.less a a ≡ false
  pub less_asymm : (a b : W) → d.less a b ≡ true → d.less b a ≡ false
  pub less_minus :
      (top a t : W)
      → d.is_positive t ≡ true
      → d.less top a ≡ false
      → d.less top (d.minus a t) ≡ false

-- The two operations, at any times, in any order.
pub data Use (W : Type 0) : Type 0 where
  allows asks : W → ℕ → Use W

module _ {W : Type 0} ⦃d : Double W⦄ where
  unfoldable pub use_bucket : Use W → TokenBucket W → TokenBucket W
  use_bucket (allows tokens now) b = (allow tokens now b).1
  use_bucket (asks tokens now) b = (retry_after tokens now b).1

  unfoldable pub use_all : List (Use W) → TokenBucket W → TokenBucket W
  unfolding use_bucket
  use_all [] b = b
  use_all (u ∷ us) b = use_all us (use_bucket u b)

  -- A bucket of a capacity that holds no more than it.
  unfoldable pub Holds : W → TokenBucket W → Type 0
  Holds burst b = (b.capacity ≡ burst) × (d.less burst b.available_tokens ≡ false)

  module _ (laws : Ordered W) (burst : W) where
    min_double-bound : (a : W) → d.less burst (min_double burst a) ≡ false
    unfolding min_double
    min_double-bound a =
        if_cases (λ w. d.less burst w ≡ false) (d.less a burst) a burst
          (λ less. laws.less_asymm a burst less) (λ _. laws.less_irrefl burst)

    -- What the bucket would hold with no capacity.
    abbrev filled : ℕ → TokenBucket W → W
    filled now b =
        d.plus b.available_tokens (d.times (d.of_duration (now - b.last_refill)) b.rate_per_second)

    refill-Holds : (now : ℕ) (b : TokenBucket W) → Holds burst b → Holds burst (refill now b)
    unfolding refill Holds
    refill-Holds now b h =
        if_cases (λ (b' : TokenBucket W). Holds burst b') (leb now b.last_refill) _ _ (λ _. h)
          (λ _. (
            h.0,
            subst (λ c. d.less burst (min_double c (filled now b)) ≡ false) (sym h.0)
                (min_double-bound (filled now b)),
          ))

    take_tokens-Holds :
        (tokens : W) (b : TokenBucket W)
        → d.is_positive tokens ≡ true
        → Holds burst b
        → Holds burst ((take_tokens tokens b).1)
    unfolding take_tokens Holds
    take_tokens-Holds tokens b positive h =
        if_cases (λ (r : Bool × TokenBucket W). Holds burst (r.1))
          (d.less b.available_tokens tokens) _ _ (λ _. h)
          (λ _. (h.0, laws.less_minus burst b.available_tokens tokens positive h.1))

    use_bucket-Holds :
        (u : Use W) (b : TokenBucket W) → Holds burst b → Holds burst (use_bucket u b)
    unfolding use_bucket allow retry_after
    use_bucket-Holds (allows tokens now) b h =
        if_cases (λ (r : Result Bool × TokenBucket W). Holds burst (r.1))
          (not (d.is_positive tokens)) _ _ (λ _. h)
          (λ positive.
            take_tokens-Holds tokens (refill now b) (ground (arith, positive))
              (refill-Holds now b h))
    use_bucket-Holds (asks tokens now) b h =
        if_cases (λ (r : Result ℕ × TokenBucket W). Holds burst (r.1)) (not (d.is_positive tokens))
          _ _ (λ _. h) (λ _. refill-Holds now b h)

    use_all-Holds :
        (us : List (Use W)) (b : TokenBucket W) → Holds burst b → Holds burst (use_all us b)
    unfolding use_all
    use_all-Holds [] b h = h
    use_all-Holds (u ∷ us) b h = use_all-Holds us _ (use_bucket-Holds u b h)

    -- A bucket that the constructor made, where it made one.
    Makes : Result (TokenBucket W) → Type 0
    Makes (ok b) = Holds burst b
    Makes (err e) = e ≡ e

    init-Makes : (rate : W) (now : ℕ) → Makes (init rate burst now)
    unfolding init Makes Holds
    init-Makes rate now =
        if_cases Makes (not (d.is_positive rate) || not (d.is_positive burst)) _ _ (λ _. refl)
          (λ _. (refl, laws.less_irrefl burst))

  -- For a `double` ordered as above, every bucket that the constructor makes with a rate and a burst, and
  -- every sequence of `allow` and `retryAfter` on it, at any times and for any tokens: the capacity stays
  -- the burst, and the tokens that are there are not more than the burst.
  pub use_all-init :
      (laws : Ordered W) (rate burst : W) (now : ℕ) (us : List (Use W)) (b : TokenBucket W)
      → init rate burst now ≡ ok b
      → Holds burst (use_all us b)
  unfolding Makes
  use_all-init laws rate burst now us b made =
      use_all-Holds laws burst us b (subst (Makes laws burst) made (init-Makes laws burst rate now))
