-- ===== src/Router/Tests.antt =====
-- The theorems on the router at concrete inputs.
use pulsegate.Base.{
  ◌≡◌, ◌⊎◌, refl, Bool, true, false, ◌&&◌, none, some, List, [], ◌∷◌, Bytes, codes, any_of,
  bytes_eq, pos, if◌then◌else◌,
}
use pulsegate.Request.{HttpMethod}
use pulsegate.Router.{Route, find_route, has_path, unmatched_response, same_method, starts_with}
use pulsegate.Router.Patterns.{NoneMatch}
use pulsegate.Router.Matching.{FirstMatch, find_route-FirstMatch, find_route-unmatched, accepts}

abbrev route_to : HttpMethod → Bytes → Bool → Route Bool
route_to method pattern prefix_match = record {
  method = method;
  pattern = pattern;
  name = codes "r";
  prefix_match = prefix_match;
  handler = some true;
}

abbrev three_routes : List (Route Bool)
three_routes =
    route_to HttpMethod.get (codes "/a") false
    ∷ route_to HttpMethod.post (codes "/") true
    ∷ route_to HttpMethod.unknown (codes "/b") true
    ∷ []

find_route-FirstMatch_example :
    ((r : Route Bool) × (find_route HttpMethod.post (codes "/b/c") three_routes ≡ some r)
      × FirstMatch HttpMethod.post (codes "/b/c") three_routes r)
    ⊎ ((find_route HttpMethod.post (codes "/b/c") three_routes ≡ none)
        × NoneMatch HttpMethod.post (codes "/b/c") three_routes)
find_route-FirstMatch_example = find_route-FirstMatch HttpMethod.post (codes "/b/c") three_routes

none_for_put : find_route HttpMethod.put (codes "/a") three_routes ≡ none
unfolding find_route bytes_eq same_method starts_with
none_for_put = refl

find_route-unmatched_example :
    ((unmatched_response (codes "/a") three_routes).status_code
      ≡ pos (if any_of (has_path (codes "/a")) three_routes then 405 else 404))
    × (any_of (λ q. has_path (codes "/a") q && accepts HttpMethod.put q) three_routes ≡ false)
find_route-unmatched_example =
    find_route-unmatched HttpMethod.put (codes "/a") three_routes none_for_put
