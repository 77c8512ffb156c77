-- ===== src/Cache/Store.antt =====
-- `put` and `get` of src/http/response_cache.cpp on a valid shard: what is stored, what is evicted, and
-- what a later `get` finds.
use mathlib.Core.List.{reverse-reverse, reverse-append}
use pulsegate.Base.{
  ℕ, ◌+◌, ◌-◌, ◌≤◌, ◌<◌, ◌≡◌, refl, ap, sym, ◌∙◌, ◌⊎◌, inl, inr, true, false, none, some, List, [],
  ◌∷◌, ◌++◌, reverse, Bytes, bytes_eq_refl, ltb, leb, if◌then◌else◌, add64, sub64, add64_exact,
  sub64_exact, arith, Bool-cases, Option-cases, subst,
}
use pulsegate.Response.{HttpResponse}
use pulsegate.Cache.{
  CacheEntry, Node, Shard, CacheStats, find_node, without, erase, get, evict, replace, charge,
  store, put,
}
use pulsegate.Cache.Shards.{
  sum, sum_cons, sum-reverse, Distinct, IsValid, Evicts, evict-Evicts, lru-replace,
  max_bytes-replace, replace-IsValid, erase-IsValid, find_node-without_self, Distinct-prefix,
  find_node-append_none, sum-without, Distinct-without,
}

-- The shard holds the new entry in front, and behind it the longest front part of the other entries
-- that leaves room for it.
abbrev pub Stores : Bytes → CacheEntry → Shard → Shard → Type 0
Stores key e s s' =
    (kept : List Node) × (gone : List Node) × (without key s.lru ≡ kept ++ gone)
    × (s'.lru ≡ record { key = key; entry = e } ∷ kept)
    × (s'.max_bytes ≡ s.max_bytes)
    × IsValid s'
    × ((gone ≡ [])
        ⊎ ((next : Node) × (more : List Node) × (gone ≡ next ∷ more)
            × (s.max_bytes < e.charge + (next.entry.charge + sum kept))))

module _ (key : Bytes) (e : CacheEntry) (s : Shard) (v : IsValid s)
    (room : e.charge ≤ s.max_bytes) where
  stored : List Node × ℕ × ℕ → Shard
  stored r = record (replace key s) {
    lru = record { key = key; entry = e } ∷ reverse r.0;
    current_bytes = add64 r.1 e.charge;
  }

  stored-Stores :
      (r : List Node × ℕ × ℕ)
      → Evicts (s.max_bytes - e.charge) (reverse (without key s.lru)) r
      → Stores key e s (stored r)
  unfolding stored
  stored-Stores r (gone, split, total, fits, least) =
      (reverse r.0, reverse gone, front, refl, max_bytes-replace key s, valid, minimal least)
    where
      front : without key s.lru ≡ reverse r.0 ++ reverse gone
      front = sym (reverse-reverse (without key s.lru)) ∙ ap reverse split ∙ reverse-append gone r.0

      sum_exact : add64 r.1 e.charge ≡ e.charge + sum r.0
      sum_exact =
          add64_exact r.1 e.charge (omega (arith, fits, room, v.is_size)) ∙ omega (arith, total)

      distinct : Distinct (reverse r.0 ++ reverse gone)
      distinct = subst Distinct front (Distinct-without key s.lru v.distinct)

      valid : IsValid (stored r)
      valid = record {
        total =
            sum_exact
            ∙ omega
                (arith, sum_cons (record { key = key; entry = e }) (reverse r.0), sum-reverse r.0);
        fits = omega (arith, sum_exact, fits, total, room, max_bytes-replace key s);
        is_size = omega (arith, max_bytes-replace key s, v.is_size);
        distinct = (
          find_node-append_none key (reverse r.0) (reverse gone)
              (ap (find_node key) (sym front) ∙ find_node-without_self key s.lru v.distinct),
          Distinct-prefix (reverse r.0) (reverse gone) distinct,
        );
      }

      minimal :
          (gone ≡ [])
            ⊎ ((first : List Node) × (last : Node) × (gone ≡ first ++ last ∷ [])
                × (s.max_bytes - e.charge < last.entry.charge + sum r.0))
          → (reverse gone ≡ [])
            ⊎ ((next : Node) × (more : List Node) × (reverse gone ≡ next ∷ more)
                × (s.max_bytes < e.charge + (next.entry.charge + sum (reverse r.0))))
      minimal (inl all) = inl (ap reverse all)
      minimal (inr (first, last, g, over)) = inr (
        last,
        reverse first,
        ap reverse g ∙ reverse-append first (last ∷ []),
        omega (arith, over, room, sum-reverse r.0),
      )

  store-Stores : (stats : CacheStats) → Stores key e s (store key e s stats).1
  unfolding store stored
  store-Stores stats =
      stored-Stores
        (evict (sub64 (replace key s).max_bytes e.charge) (reverse (replace key s).lru)
          (replace key s).current_bytes stats.evictions)
        (rw (limit, lru-replace key s)
          (evict-Evicts (s.max_bytes - e.charge) (reverse (without key s.lru))
            (replace key s).current_bytes stats.evictions total
            (omega (arith, (replace-IsValid key s v).fits, (replace-IsValid key s v).is_size))))
    where
      limit : sub64 (replace key s).max_bytes e.charge ≡ s.max_bytes - e.charge
      limit = rw (max_bytes-replace key s) (sub64_exact s.max_bytes e.charge room v.is_size)

      total : (replace key s).current_bytes ≡ sum (reverse (without key s.lru))
      total =
          (replace-IsValid key s v).total
          ∙ ap sum (lru-replace key s)
          ∙ sym (sum-reverse (without key s.lru))

-- Where the charge of an entry fits a valid shard, `put` returns true and leaves a valid shard, within
-- its byte limit: the new entry in front, and behind it the other entries in their order, without an
-- older entry of the same key. What it evicts are the entries at the back, those that were used longest
-- ago, and no more of them than must go. Where the charge does not fit, `put` returns false and changes
-- nothing.
pub put-Stores :
    (ttl : ℕ) (key : Bytes) (response : HttpResponse) (now : ℕ) (s : Shard) (stats : CacheStats)
    → IsValid s
    → ((charge key response ≤ s.max_bytes)
        × ((put ttl key response now s stats).0 ≡ true)
        × Stores key
            (record { response = response; expires_at = now + ttl; charge = charge key response })
            s
            (put ttl key response now s stats).1)
      ⊎ ((s.max_bytes < charge key response)
          × (put ttl key response now s stats ≡ (false, s, stats)))
put-Stores ttl key response now s stats v =
    elim (Bool-cases (ltb s.max_bytes (charge key response))) [
      | inl large ↦ inr (ground arith, unfold put in rw large refl)
      | inr small ↦
          let room : charge key response ≤ s.max_bytes = ground arith in
          let e : CacheEntry = record {
            response = response;
            expires_at = now + ttl;
            charge = charge key response;
          } in
          inl (
            room,
            unfold put store in rw small refl,
            unfold put in rw small (store-Stores key e s v room stats),
          )
    ]

-- `get` keeps a shard valid, and never changes its byte limit.
get-IsValid :
    (key : Bytes) (now : ℕ) (s : Shard) (stats : CacheStats)
    → IsValid s
    → IsValid (get key now s stats).1 × ((get key now s stats).1.max_bytes ≡ s.max_bytes)
unfolding get
get-IsValid key now s stats v = elim (Option-cases (find_node key s.lru)) [
  | inl missing ↦ rw (missing, get) (v, refl)
  | inr (e, found) ↦ elim (Bool-cases (leb e.expires_at now)) [
    | inl old ↦ rw (found, get, old) (erase-IsValid key e s v found, unfold erase in refl)
    | inr fresh ↦ rw (found, get, fresh) (front e found, refl)
  ]
]
  where
    front :
        (e : CacheEntry)
        → find_node key s.lru ≡ some e
        → IsValid (record s { lru = record { key = key; entry = e } ∷ without key s.lru })
    front e found = record {
      total =
          v.total
          ∙ sum-without key s.lru e found
          ∙ sym (sum_cons (record { key = key; entry = e }) (without key s.lru));
      fits = v.fits;
      is_size = v.is_size;
      distinct =
          (find_node-without_self key s.lru v.distinct, Distinct-without key s.lru v.distinct);
    }

find_node_first :
    (key : Bytes) (e : CacheEntry) (ns : List Node)
    → find_node key (record { key = key; entry = e } ∷ ns) ≡ some e
unfolding find_node
find_node_first key e ns = rw (bytes_eq_refl key)

-- A `get` of the key of a successful `put` on a valid shard, on the shard that it left, returns the
-- response that was put, up to the end of its time to live and not from then on.
pub get-put :
    (ttl : ℕ) (key : Bytes) (response : HttpResponse) (now later : ℕ) (s : Shard)
    (stats stats' : CacheStats)
    → IsValid s
    → (put ttl key response now s stats).0 ≡ true
    → (get key later (put ttl key response now s stats).1 stats').0
      ≡ (if leb (now + ttl) later then none else some response)
get-put ttl key response now later s stats stats' v done =
    elim (put-Stores ttl key response now s stats v) [
      | inl (_, _, (kept, gone, _, front, _, _, _)) ↦
          let found : find_node key (put ttl key response now s stats).1.lru
              ≡ some (record {
                response = response;
                expires_at = now + ttl;
                charge = charge key response;
              }) =
            ap (find_node key) front ∙ find_node_first key _ kept in
          unfold get in rw (found, get) (ground arith)
      | inr (_, refused) ↦ absurd (cc (done, refused))
    ]
