-- ===== src/Cache/Build.antt =====
-- The constructor of src/http/response_cache.cpp, and the cache as its shards. `std::hash` is a parameter.
use pulsegate.Base.{
  ℕ, zero, suc, ◌+◌, ◌/◌, ◌%◌, ◌≤◌, ◌<◌, ◌≡◌, refl, ap, Bool, true, false, not, ◌||◌, Option, none,
  some, List, [], ◌∷◌, Bytes, map, all_of, bytes_eq, length, ltb, ◌==◌, if◌then◌else◌, Result, ok,
  err, invalid_argument, arith, size_mod, get_elem?, set_at,
}
use pulsegate.Headers.{is_valid_header_name, normalize_header_name}
use pulsegate.Response.{HttpResponse}
use pulsegate.Cache.{Shard, CacheStats, get, put}
use pulsegate.Cache.Policy.{ResponseCacheConfig}
use pulsegate.Cache.Shards.{IsValid, sum}

pub record ResponseCache : Type 0 where
  pub config : ResponseCacheConfig
  pub shards : List Shard
  pub stats : CacheStats

-- `<` on strings, by unsigned bytes
unfoldable pub bytes_less : Bytes → Bytes → Bool
bytes_less [] [] = false
bytes_less [] (y ∷ ys) = true
bytes_less (x ∷ xs) [] = false
bytes_less (x ∷ xs) (y ∷ ys) =
    let rest = bytes_less xs ys in if ltb x y then true else if ltb y x then false else rest

unfoldable pub insert_sorted : Bytes → List Bytes → List Bytes
insert_sorted x [] = x ∷ []
insert_sorted x (y ∷ ys) =
    let rest = insert_sorted x ys in if bytes_less y x then y ∷ rest else x ∷ (y ∷ ys)

-- `std::sort`: strings that compare equal are equal, so the order is the only one.
unfoldable pub sort : List Bytes → List Bytes
unfolding insert_sorted
sort [] = []
sort (x ∷ xs) = insert_sorted x (sort xs)

-- `std::unique` and `erase`
unfoldable pub unique : List Bytes → List Bytes
unique [] = []
unique (x ∷ []) = x ∷ []
unique (x ∷ (y ∷ ys)) = let rest = unique (y ∷ ys) in if bytes_eq x y then rest else x ∷ rest

unfoldable pub is_config_valid : ResponseCacheConfig → Bool
is_config_valid c = not (
    (c.ttl == 0 || c.max_entry_bytes == 0)
    || ((ltb c.max_bytes c.max_entry_bytes || c.max_bytes == 0)
        || (c.shard_count == 0
            || (ltb c.max_bytes c.shard_count
                || ltb (c.max_bytes / c.shard_count) c.max_entry_bytes))))

-- The loop from `index` on, with the number of rounds that are left.
unfoldable pub make_shards : ℕ → ℕ → ℕ → ℕ → List Shard
make_shards base remainder index zero = []
make_shards base remainder index (suc more) =
    record {
      lru = [];
      current_bytes = 0;
      max_bytes = base + (if ltb index remainder then 1 else 0);
    }
    ∷ make_shards base remainder (index + 1) more

unfoldable pub init : ResponseCacheConfig → Result ResponseCache
unfolding is_config_valid sort unique make_shards
init c =
    let headers = map normalize_header_name c.vary_headers in
    if not (is_config_valid c) || not (all_of is_valid_header_name headers)
    then err invalid_argument
    else ok (record {
      config = record c { vary_headers = unique (sort headers) };
      shards =
          make_shards (c.max_bytes / c.shard_count) (c.max_bytes % c.shard_count) 0 c.shard_count;
      stats = record { hits = 0; misses = 0; stores = 0; evictions = 0; expired = 0 };
    })

module _ (hash : Bytes → ℕ) where
  -- The index of the shard.
  unfoldable pub shard_for : Bytes → ResponseCache → ℕ
  shard_for key cache = elim (length cache.shards) [ zero ↦ 0 | suc n ↦ hash key % suc n ]

  -- `get` and `put` of the cache: the shard of the key does it, and the counters are shared.
  unfoldable pub get_cached : Bytes → ℕ → ResponseCache → Option HttpResponse × ResponseCache
  unfolding shard_for
  get_cached key now cache =
      let i = shard_for key cache in
      elim (get_elem? cache.shards i) [
        | none ↦ (none, cache)
        | some s ↦
            let (found, s', stats) = get key now s cache.stats in
            (found, record cache { shards = set_at i s' cache.shards; stats = stats })
      ]

  unfoldable pub put_cached : Bytes → HttpResponse → ℕ → ResponseCache → Bool × ResponseCache
  unfolding shard_for
  put_cached key response now cache =
      let i = shard_for key cache in
      elim (get_elem? cache.shards i) [
        | none ↦ (false, cache)
        | some s ↦
            let (done, s', stats) = put cache.config.ttl key response now s cache.stats in
            (done, record cache { shards = set_at i s' cache.shards; stats = stats })
      ]

-- Every shard is empty, valid, and can hold an entry of the largest size.
abbrev pub AllReady : ℕ → List Shard → Type 0
AllReady entry [] = Unit {0}
AllReady entry (s ∷ ss) = (IsValid s × (s.lru ≡ []) × (entry ≤ s.max_bytes)) × AllReady entry ss

make_shards-AllReady :
    (entry base remainder index count : ℕ)
    → entry ≤ base
    → base + 1 < size_mod
    → AllReady entry (make_shards base remainder index count)
unfolding make_shards sum
make_shards-AllReady entry base remainder index zero h k = tt
make_shards-AllReady entry base remainder index (suc more) h k = (
  (
    record { total = refl; fits = omega arith; is_size = ground (arith, k); distinct = tt },
    refl,
    ground (arith, h),
  ),
  make_shards-AllReady entry base remainder (index + 1) more h k,
)

length-make_shards :
    (base remainder index count : ℕ) → length (make_shards base remainder index count) ≡ count
unfolding make_shards
length-make_shards base remainder index zero = refl
length-make_shards base remainder index (suc more) =
    ap suc (length-make_shards base remainder (index + 1) more)

init-make_shards :
    (c : ResponseCacheConfig) (cache : ResponseCache)
    → init c ≡ ok cache
    → (is_config_valid c ≡ true)
      × (cache.shards
          ≡ make_shards (c.max_bytes / c.shard_count) (c.max_bytes % c.shard_count) 0 c.shard_count)
unfolding init
init-make_shards c cache made = (ground (arith, made), ground (arith, made))

fits-shard :
    (c : ResponseCacheConfig)
    → is_config_valid c ≡ true
    → c.max_entry_bytes ≤ c.max_bytes / c.shard_count
unfolding is_config_valid
fits-shard c h = ground (arith, h)

-- Where the constructor accepts a configuration, and the bytes of a shard and one more are below 2 ^ 64,
-- the cache has the configured number of shards, each of them empty, valid, and large enough for an
-- entry of the largest size.
pub init-AllReady :
    (c : ResponseCacheConfig) (cache : ResponseCache)
    → c.max_bytes / c.shard_count + 1 < size_mod
    → init c ≡ ok cache
    → (length cache.shards ≡ c.shard_count) × AllReady c.max_entry_bytes cache.shards
init-AllReady c cache h made =
    let (accepted, made_as) = init-make_shards c cache made in
    rw made_as (
      length-make_shards (c.max_bytes / c.shard_count) (c.max_bytes % c.shard_count) 0
          c.shard_count,
      make_shards-AllReady c.max_entry_bytes (c.max_bytes / c.shard_count)
          (c.max_bytes % c.shard_count) 0 c.shard_count (fits-shard c accepted) h,
    )
