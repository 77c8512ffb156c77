-- ===== src/Cache/Tests.antt =====
-- The theorems on the response cache at concrete inputs.
use pulsegate.Base.{
  ◌≤◌, ◌<◌, ◌≡◌, ◌⊎◌, refl, true, false, some, [], ◌∷◌, codes, bytes_eq, to_lower, arith, add64,
  sub64,
}
use pulsegate.Headers
use pulsegate.Headers.{Header, Headers, values, values_named, normalize_header_name}
use pulsegate.Request.{HttpRequest, empty_request}
use pulsegate.Response.{empty_response}
use pulsegate.Cache.{Node, Shard, CacheStats, find_node, get, put, charge}
use pulsegate.Cache.Policy.{ResponseCacheConfig, lower}
use pulsegate.Cache.Shards.{IsValid, sum}
use pulsegate.Cache.Store.{Stores, put-Stores, get-put}
use pulsegate.Cache.Build.{
  ResponseCache, AllReady, init, is_config_valid, make_shards, sort, insert_sorted, unique,
  bytes_less, init-AllReady,
}
use pulsegate.Base.{ok, all_of, any_of, length}
use pulsegate.Headers.{is_valid_header_name, is_token_character}
use pulsegate.Cache.Key.{
  make_key, key_fields, vary_fields, make_key_unique, make_key_collides, host_of, path_of, query_of,
  SameValues, NoEmptyValue,
}

abbrev old_node : Node
old_node = record {
  key = codes "k1";
  entry = record { response = empty_response; expires_at = 50; charge = 900 };
}

abbrev one_entry : Shard
one_entry = record { lru = old_node ∷ []; current_bytes = 900; max_bytes = 1000 }

abbrev no_stats : CacheStats
no_stats = record { hits = 0; misses = 0; stores = 0; evictions = 0; expired = 0 }

one_entry-IsValid : IsValid one_entry
unfolding sum find_node
one_entry-IsValid = record {
  total = refl;
  fits = omega arith;
  is_size = omega arith;
  distinct = (refl, tt);
}

-- There is no room for both entries: the old one goes.
put-Stores_example :
    ((charge (codes "k2") empty_response ≤ 1000)
      × ((put 30 (codes "k2") empty_response 10 one_entry no_stats).0 ≡ true)
      × Stores
          (codes "k2")
          (record {
            response = empty_response;
            expires_at = 40;
            charge = charge (codes "k2") empty_response;
          })
          one_entry
          (put 30 (codes "k2") empty_response 10 one_entry no_stats).1)
    ⊎ ((1000 < charge (codes "k2") empty_response)
        × (put 30 (codes "k2") empty_response 10 one_entry no_stats ≡ (false, one_entry, no_stats)))
put-Stores_example =
    put-Stores 30 (codes "k2") empty_response 10 one_entry no_stats one_entry-IsValid

put_done : (put 30 (codes "k2") empty_response 10 one_entry no_stats).0 ≡ true
unfolding put charge sub64 add64
put_done = refl

get-put_example :
    (get (codes "k2") 39 (put 30 (codes "k2") empty_response 10 one_entry no_stats).1 no_stats).0
    ≡ some empty_response
get-put_example =
    get-put 30 (codes "k2") empty_response 10 39 one_entry no_stats no_stats one_entry-IsValid
      put_done

abbrev two_vary : ResponseCacheConfig
two_vary = record {
  ttl = 1000;
  max_entry_bytes = 4096;
  max_bytes = 65536;
  shard_count = 1;
  vary_headers = codes "x-a" ∷ codes "x-b" ∷ [];
}

abbrev with_headers : Headers → HttpRequest
with_headers entries = record empty_request { target = codes "/p?q"; headers = entries }

abbrev in_a : HttpRequest
in_a = with_headers (
    record { name = codes "x-a"; value = [] }
    ∷ record { name = codes "x-a"; value = codes "x-b" }
    ∷ [])

abbrev in_b : HttpRequest
in_b = with_headers (
    record { name = codes "x-b"; value = [] }
    ∷ record { name = codes "x-b"; value = codes "x-b" }
    ∷ [])

abbrev full : HttpRequest
full = with_headers (record { name = codes "x-a"; value = codes "1" } ∷ [])

-- The header `age` is no part of the key.
abbrev aged : HttpRequest
aged = with_headers (
    record { name = codes "age"; value = codes "3" }
    ∷ record { name = codes "x-a"; value = codes "1" }
    ∷ [])

host_missing : host_of in_a ≡ host_of in_b
unfolding host_of Headers.get Headers.find_named bytes_eq normalize_header_name to_lower
host_missing = refl

values_in_a :
    (values (codes "x-a") in_a.headers ≡ [] ∷ codes "x-b" ∷ [])
    × (values (codes "x-b") in_a.headers ≡ [])
unfolding values bytes_eq normalize_header_name to_lower
values_in_a = (refl, refl)

values_in_b :
    (values (codes "x-a") in_b.headers ≡ [])
    × (values (codes "x-b") in_b.headers ≡ [] ∷ codes "x-b" ∷ [])
unfolding values bytes_eq normalize_header_name to_lower
values_in_b = (refl, refl)

make_key_collides_example :
    (make_key in_a two_vary ≡ make_key in_b two_vary)
    × ¬ SameValues in_a in_b (codes "x-a" ∷ codes "x-b" ∷ [])
make_key_collides_example =
    make_key_collides in_a in_b two_vary (codes "x-a") (codes "x-b") refl refl host_missing
      values_in_a.0 values_in_a.1 values_in_b.0 values_in_b.1

full-NoEmptyValue : NoEmptyValue full (codes "x-a" ∷ codes "x-b" ∷ [])
unfolding values bytes_eq normalize_header_name to_lower
full-NoEmptyValue = ((λ e. cc e, tt), (tt, tt))

aged-NoEmptyValue : NoEmptyValue aged (codes "x-a" ∷ codes "x-b" ∷ [])
unfolding values bytes_eq normalize_header_name to_lower
aged-NoEmptyValue = ((λ e. cc e, tt), (tt, tt))

same_key : make_key full two_vary ≡ make_key aged two_vary
unfolding make_key key_fields vary_fields values host_of Headers.get Headers.find_named bytes_eq
    normalize_header_name to_lower
same_key = refl

make_key_unique_example :
    (lower (host_of full) ≡ lower (host_of aged))
    × (path_of full.target ≡ path_of aged.target)
    × (query_of full.target ≡ query_of aged.target)
    × SameValues full aged (codes "x-a" ∷ codes "x-b" ∷ [])
make_key_unique_example =
    make_key_unique full aged two_vary full-NoEmptyValue aged-NoEmptyValue same_key

abbrev built : ResponseCache
built = record {
  config = two_vary;
  shards = record { lru = []; current_bytes = 0; max_bytes = 65536 } ∷ [];
  stats = no_stats;
}

built-init : init two_vary ≡ ok built
unfolding init is_config_valid make_shards sort insert_sorted unique bytes_less bytes_eq
    is_valid_header_name is_token_character normalize_header_name to_lower all_of any_of
built-init = refl

init-AllReady_example : (length built.shards ≡ 1) × AllReady 4096 built.shards
init-AllReady_example = init-AllReady two_vary built (omega arith) built-init
