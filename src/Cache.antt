-- ===== src/Cache.antt =====
-- include/pulsegate/http/response_cache.h and src/http/response_cache.cpp: the sharded cache. A shard's
-- index holds one iterator for each key of its list, and is written together with the list: a search
-- by the index is a search of the list by the key. `std::hash` is a parameter.
pub mod Policy
pub mod Shards
pub mod Store
pub mod Key
pub mod Build
pub mod Whole
mod Tests
use pulsegate.Base.{
  ℕ, zero, suc, ◌+◌, ◌-◌, ◌%◌, ◌/◌, ◌^◌, Bool, true, false, not, ◌&&◌, ◌||◌, Option, none, some,
  List, [], ◌∷◌, ◌++◌, reverse, Bytes, codes, bytes_eq, length, take, drop, ltb, leb, ◌==◌,
  if◌then◌else◌, add64, sub64, size_mod,
}
use pulsegate.Headers.{Header, Headers}
use pulsegate.Response.{HttpResponse}

pub record CacheEntry : Type 0 where
  pub response : HttpResponse
  pub expires_at : ℕ
  pub charge : ℕ

pub record Node : Type 0 where
  pub key : Bytes
  pub entry : CacheEntry

-- The front of the list is the entry that was used last.
pub record Shard : Type 0 where
  pub lru : List Node
  pub current_bytes : ℕ
  pub max_bytes : ℕ

pub record CacheStats : Type 0 where
  pub hits : ℕ
  pub misses : ℕ
  pub stores : ℕ
  pub evictions : ℕ
  pub expired : ℕ

-- `shard.index.find(key)`
unfoldable pub find_node : Bytes → List Node → Option CacheEntry
find_node key [] = none
find_node key (n ∷ ns) = if bytes_eq n.key key then some n.entry else find_node key ns

unfoldable pub without : Bytes → List Node → List Node
without key [] = []
without key (n ∷ ns) = if bytes_eq n.key key then ns else n ∷ without key ns

-- `erase` of the node with this key and entry.
unfoldable pub erase : Bytes → CacheEntry → Shard → Shard
erase key e s = record s { current_bytes = sub64 s.current_bytes e.charge; lru = without key s.lru }

abbrev pub count_up : ℕ → ℕ
count_up n = (n + 1) % 2 ^ 64

-- `get`, on the shard of the key.
unfoldable pub get : Bytes → ℕ → Shard → CacheStats → Option HttpResponse × Shard × CacheStats
get key now s stats = elim (find_node key s.lru) [
  | none ↦ (none, s, record stats { misses = count_up stats.misses })
  | some e ↦
      if leb e.expires_at now
      then (
        none,
        erase key e s,
        record stats { expired = count_up stats.expired; misses = count_up stats.misses },
      )
      else (
        some e.response,
        record s { lru = record { key = key; entry = e } ∷ without key s.lru },
        record stats { hits = count_up stats.hits },
      )
]

-- `while (!shard.lru.empty() && shard.current_bytes > limit)`, over the list from its back: the nodes
-- that stay, the bytes that they use, and the evictions counted so far.
unfoldable pub evict : ℕ → List Node → ℕ → ℕ → List Node × ℕ × ℕ
evict limit [] bytes count = ([], bytes, count)
evict limit (n ∷ ns) bytes count =
    let rest = evict limit ns (sub64 bytes n.entry.charge) (count_up count) in
    if ltb limit bytes then rest else (n ∷ ns, bytes, count)

-- The old entry of the key goes before anything is evicted.
unfoldable pub replace : Bytes → Shard → Shard
replace key s = elim (find_node key s.lru) [ none ↦ s | some e ↦ erase key e s ]

-- The sum of the sizes of the headers, or the largest size where it would wrap.
unfoldable pub charge_headers : Headers → ℕ → ℕ
charge_headers [] result = result
charge_headers (h ∷ hs) result =
    let rest = charge_headers hs (add64 result (add64 (length h.name) (length h.value))) in
    if ltb (sub64 (size_mod - 1) result) (length h.name)
      || ltb (sub64 (sub64 (size_mod - 1) result) (length h.name)) (length h.value)
    then size_mod - 1
    else rest

unfoldable pub charge : Bytes → HttpResponse → ℕ
unfolding charge_headers
charge key r =
    if ltb (sub64 (size_mod - 1) (length r.reason)) (length key)
      || ltb (sub64 (sub64 (size_mod - 1) (length key)) (length r.reason)) (length r.body)
    then size_mod - 1
    else charge_headers r.headers (add64 (add64 (length key) (length r.reason)) (length r.body))

-- What `put` does once the charge fits the shard.
unfoldable pub store : Bytes → CacheEntry → Shard → CacheStats → Bool × Shard × CacheStats
unfolding replace evict
store key e s stats =
    let s₁ = replace key s in
    let (kept, bytes, evictions) =
      evict (sub64 s₁.max_bytes e.charge) (reverse s₁.lru) s₁.current_bytes stats.evictions in
    (
      true,
      record s₁ {
        lru = record { key = key; entry = e } ∷ reverse kept;
        current_bytes = add64 bytes e.charge;
      },
      record stats { evictions = evictions; stores = count_up stats.stores },
    )

-- `put`, on the shard of the key; `ttl` is the configured time to live.
unfoldable pub put : ℕ → Bytes → HttpResponse → ℕ → Shard → CacheStats → Bool × Shard × CacheStats
unfolding store
put ttl key response now s stats =
    let entry_charge = charge key response in
    if ltb s.max_bytes entry_charge
    then (false, s, stats)
    else store key (record { response = response; expires_at = now + ttl; charge = entry_charge }) s
        stats
