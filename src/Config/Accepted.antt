-- ===== src/Config/Accepted.antt =====
-- `ConfigLoader::validate` of src/http/config.cpp: what a configuration without errors has.
use pulsegate.Base.{
  ℕ, ◌+◌, ◌/◌, ◌<◌, ◌≤◌, ◌≡◌, refl, Bool, true, false, not, ◌||◌, Option, none, some, List, [], ◌∷◌,
  ◌++◌, map, Bytes, length, all_of, ltb, ◌==◌, if◌then◌else◌, ok, err, Fault, arith,
}
use native.Mathlib.Nat.{div-add-mod, div-add-mod', le-mul_of_pos_right}
use pulsegate.Headers.{normalize_header_name, is_valid_header_name}
use pulsegate.RateLimiter.{Double}
use pulsegate.Cache.Policy.{ResponseCacheConfig}
use pulsegate.Cache.Build.{ResponseCache, is_config_valid, init}
use pulsegate.Router.{is_absolute}
use pulsegate.Config.{
  ConfigError, UpstreamEndpoint, UpstreamConfig, RouteConfig, Config, has_member, check,
}
use pulsegate.Config.Validate.{
  endpoint_text, endpoint_errors, upstream_errors, cache_errors, route_errors, validate,
}

pub nil-append {ℓ} : {A : Type ℓ} (xs ys : List A) → xs ++ ys ≡ [] → (xs ≡ []) × (ys ≡ [])
nil-append [] ys h = (refl, h)
nil-append (x ∷ xs) ys h = absurd (cc h)

nil-check : (failed : Bool) (path message : Bytes) → check failed path message ≡ [] → failed ≡ false
nil-check true path message h = absurd (cc h)
nil-check false path message h = refl

not-false : (b : Bool) → not b ≡ false → b ≡ true
not-false b h = ground (arith, h)

positive_of_test : (n : ℕ) → (n == 0) ≡ false → 0 < n
positive_of_test n h = ground (arith, h)

-- Each of the texts is new to those before it and to the given ones.
abbrev pub AllNew : List Bytes → List Bytes → Type 0
AllNew seen [] = Unit {0}
AllNew seen (text ∷ more) = (has_member text seen ≡ false) × AllNew (text ∷ seen) more

-- What an upstream needs: at least one endpoint, one shard of its pool, and endpoints that differ.
abbrev pub IsUsable : UpstreamConfig → Type 0
IsUsable u =
    (0 < length u.endpoints) × (0 < u.pool_shards) × AllNew [] (map endpoint_text u.endpoints)

abbrev pub AllUsable : List UpstreamConfig → Type 0
AllUsable [] = Unit {0}
AllUsable (u ∷ us) = IsUsable u × AllUsable us

-- A route leads to an upstream of the configuration, and the constructor of its cache accepts its values.
abbrev pub CacheFits : Option ResponseCacheConfig → Type 0
CacheFits none = Unit {0}
CacheFits (some c) =
    all_of is_valid_header_name (map normalize_header_name c.vary_headers) ≡ true
    → (cache : ResponseCache) × (init c ≡ ok cache)

module _ {W : Type 0} where
  abbrev pub AllLead : List Bytes → List (RouteConfig W) → Type 0
  AllLead names [] = Unit {0}
  AllLead names (r ∷ rs) =
      ((is_absolute r.path_prefix ≡ true)
        × (has_member r.upstream names ≡ true)
        × CacheFits r.cache)
      × AllLead names rs

endpoint_errors-AllNew :
    (prefix : Bytes) (index : ℕ) (seen : List Bytes) (es : List UpstreamEndpoint)
    → endpoint_errors prefix index seen es ≡ []
    → AllNew seen (map endpoint_text es)
unfolding endpoint_errors
endpoint_errors-AllNew prefix index seen [] h = tt
endpoint_errors-AllNew prefix index seen (e ∷ es) h =
    let (_, later) = nil-append _ _ h in
    let (fresh, rest) = nil-append _ _ later in
    (nil-check _ _ _ fresh, endpoint_errors-AllNew prefix (index + 1) _ es rest)

upstream_errors-AllUsable :
    (index : ℕ) (names : List Bytes) (us : List UpstreamConfig)
    → upstream_errors index names us ≡ []
    → AllNew names (map (λ u. u.name) us) × AllUsable us
unfolding upstream_errors
upstream_errors-AllUsable index names [] h = (tt, tt)
upstream_errors-AllUsable index names (u ∷ us) h =
    let (_, h₁) = nil-append _ _ h in
    let (fresh, h₂) = nil-append _ _ h₁ in
    let (filled, h₃) = nil-append _ _ h₂ in
    let (sharded, h₄) = nil-append _ _ h₃ in
    let (distinct, h₅) = nil-append _ _ h₄ in
    let (names_new, usable) = upstream_errors-AllUsable (index + 1) (u.name ∷ names) us h₅ in
    (
      (nil-check _ _ _ fresh, names_new),
      (
        (
          positive_of_test (length u.endpoints) (nil-check _ _ _ filled),
          positive_of_test u.pool_shards (nil-check _ _ _ sharded),
          endpoint_errors-AllNew _ 0 [] u.endpoints distinct,
        ),
        usable,
      ),
    )

nil-else :
    (failed : Bool) (path message : Bytes) (rest : List ConfigError)
    → (if failed then check true path message else rest) ≡ []
    → (failed ≡ false) × (rest ≡ [])
nil-else true path message rest h = absurd (cc h)
nil-else false path message rest h = (refl, h)

div_bounds :
    (entry size shards : ℕ)
    → 0 < entry
    → 0 < shards
    → entry ≤ size / shards
    → (entry ≤ size) × (shards ≤ size)
div_bounds entry size shards some_entry some_shard fits =
    let q = size / shards in
    (
      omega (arith, fits, div-add-mod' size shards, le-mul_of_pos_right q some_shard),
      omega (
        arith,
        fits,
        div-add-mod size shards,
        le-mul_of_pos_right {m = q} shards (omega (arith, some_entry, fits)),
      ),
    )

fits_all :
    (ttl entry size shards : ℕ)
    → (ttl == 0 || (entry == 0 || (size == 0 || shards == 0))) ≡ false
    → ltb (size / shards) entry ≡ false
    → not (
        (ttl == 0 || entry == 0)
        || ((ltb size entry || size == 0)
            || (shards == 0 || (ltb size shards || ltb (size / shards) entry))))
      ≡ true
fits_all ttl entry size shards given fits =
    let (a, b) =
      div_bounds entry size shards (ground (arith, given)) (ground (arith, given))
        (ground (arith, fits)) in
    ground (arith, given, fits, a, b)

cache_errors-valid :
    (prefix : Bytes) (c : ResponseCacheConfig)
    → cache_errors prefix (some c) ≡ []
    → is_config_valid c ≡ true
unfolding cache_errors is_config_valid
cache_errors-valid prefix c h =
    let (given, rest) = nil-else _ _ _ _ h in
    fits_all c.ttl c.max_entry_bytes c.max_bytes c.shard_count given (nil-check _ _ _ rest)

accepted_by :
    {A : Type 0} (valid named : Bool) (e : Fault) (a : A)
    → valid ≡ true
    → named ≡ true
    → (if not valid || not named then err e else ok a) ≡ ok a
accepted_by false named e a h k = absurd (cc h)
accepted_by true false e a h k = absurd (cc k)
accepted_by true true e a h k = refl

init-accepts :
    (c : ResponseCacheConfig)
    → is_config_valid c ≡ true
    → all_of is_valid_header_name (map normalize_header_name c.vary_headers) ≡ true
    → (cache : ResponseCache) × (init c ≡ ok cache)
unfolding init
init-accepts c valid names = (_, accepted_by _ _ _ _ valid names)

cache_errors-CacheFits :
    (prefix : Bytes) (cache : Option ResponseCacheConfig)
    → cache_errors prefix cache ≡ []
    → CacheFits cache
cache_errors-CacheFits prefix none h = tt
cache_errors-CacheFits prefix (some c) h =
    λ names. init-accepts c (cache_errors-valid prefix c h) names

module _ {W : Type 0} ⦃d : Double W⦄ where
  route_errors-AllLead :
      (index : ℕ) (names : List Bytes) (rs : List (RouteConfig W))
      → route_errors index names rs ≡ []
      → AllLead names rs
  unfolding route_errors
  route_errors-AllLead index names [] h = tt
  route_errors-AllLead index names (r ∷ rs) h =
      let (absolute, h₁) = nil-append _ _ h in
      let (known, h₂) = nil-append _ _ h₁ in
      let (_, h₃) = nil-append _ _ h₂ in
      let (cached, h₄) = nil-append _ _ h₃ in
      (
        (
          not-false (is_absolute r.path_prefix) (nil-check _ _ _ absolute),
          not-false (has_member r.upstream names) (nil-check _ _ _ known),
          cache_errors-CacheFits _ r.cache cached,
        ),
        route_errors-AllLead (index + 1) names rs h₄,
      )

  -- Where `validate` has no errors for a configuration: the names of its upstreams differ; each upstream has
  -- at least one endpoint, endpoints that differ, and one shard of its pool at least; each route has an
  -- absolute prefix and the name of an upstream of the configuration; and the constructor of the response
  -- cache accepts the values of each route that has one, where the names of its vary headers are valid.
  pub validate-accepts :
      (c : Config W)
      → validate c ≡ []
      → AllNew [] (map (λ u. u.name) c.upstreams)
        × AllUsable c.upstreams
        × AllLead (map (λ u. u.name) c.upstreams) c.routes
  unfolding validate
  validate-accepts c h =
      let (_, h₁) = nil-append _ _ h in
      let (_, h₂) = nil-append _ _ h₁ in
      let (good_upstreams, good_routes) = nil-append _ _ h₂ in
      let (names, usable) = upstream_errors-AllUsable 0 [] c.upstreams good_upstreams in
      (names, usable, route_errors-AllLead 0 _ c.routes good_routes)
