-- ===== src/Cache/Whole.antt =====
-- `put` and `get` of src/http/response_cache.cpp on the whole cache.
use pulsegate.Base.{
  ℕ, ◌+◌, ◌≡◌, refl, sym, ap, subst, ◌∙◌, true, none, some, Bytes, length, get_elem?, set_at,
  length-set_at, get_elem?-set_at, leb, if◌then◌else◌,
}
use pulsegate.Response.{HttpResponse}
use pulsegate.Cache.{Shard, put, get}
use pulsegate.Cache.Shards.{IsValid}
use pulsegate.Cache.Store.{get-put}
use pulsegate.Cache.Build.{ResponseCache, shard_for, get_cached, put_cached}

module _ (hash : Bytes → ℕ) where
  shard_for-length :
      (key : Bytes) (c c' : ResponseCache)
      → length c.shards ≡ length c'.shards
      → shard_for hash key c ≡ shard_for hash key c'
  unfolding shard_for
  shard_for-length key c c' same = rw (same, shard_for) refl

  put_cached-put :
      (key : Bytes) (response : HttpResponse) (now : ℕ) (cache : ResponseCache) (s : Shard)
      → get_elem? cache.shards (shard_for hash key cache) ≡ some s
      → ((put_cached hash key response now cache).0
          ≡ (put cache.config.ttl key response now s cache.stats).0)
        × ((put_cached hash key response now cache).1.shards
            ≡ set_at
                (shard_for hash key cache)
                (put cache.config.ttl key response now s cache.stats).1
                cache.shards)
  unfolding put_cached
  put_cached-put key response now cache s found = rw (found, put_cached) (refl, refl)

  pub config-put_cached :
      (key : Bytes) (response : HttpResponse) (now : ℕ) (cache : ResponseCache) (s : Shard)
      → get_elem? cache.shards (shard_for hash key cache) ≡ some s
      → (put_cached hash key response now cache).1.config ≡ cache.config
  unfolding put_cached
  config-put_cached key response now cache s found = rw (found, put_cached) refl

  get_cached-get :
      (key : Bytes) (now : ℕ) (cache : ResponseCache) (s : Shard)
      → get_elem? cache.shards (shard_for hash key cache) ≡ some s
      → (get_cached hash key now cache).0 ≡ (get key now s cache.stats).0
  unfolding get_cached
  get_cached-get key now cache s found = rw (found, get_cached) refl

  pub get_cached-put_cached :
      (key : Bytes) (response : HttpResponse) (now later : ℕ) (cache : ResponseCache) (s : Shard)
      → get_elem? cache.shards (shard_for hash key cache) ≡ some s
      → IsValid s
      → (put_cached hash key response now cache).0 ≡ true
      → (get_cached hash key later (put_cached hash key response now cache).1).0
        ≡ (if leb (now + cache.config.ttl) later then none else some response)
  get_cached-put_cached key response now later cache s found valid done =
      let after = (put_cached hash key response now cache).1 in
      let (same_answer, stored) = put_cached-put key response now cache s found in
      let s' = (put cache.config.ttl key response now s cache.stats).1 in
      let there : get_elem? after.shards (shard_for hash key after) ≡ some s' =
        subst (λ i. get_elem? after.shards i ≡ some s')
          (shard_for-length key cache after
            (sym (ap length stored ∙ length-set_at (shard_for hash key cache) s' cache.shards)))
          (ap (λ ss. get_elem? ss (shard_for hash key cache)) stored
            ∙ get_elem?-set_at (shard_for hash key cache) s' s cache.shards found) in
      get_cached-get key later after s' there
      ∙ get-put cache.config.ttl key response now later s cache.stats after.stats valid
          (sym same_answer ∙ done)
