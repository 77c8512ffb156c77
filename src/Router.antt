-- ===== src/Router.antt =====
-- include/pulsegate/http/router.h and src/http/router.cpp: the route table. A handler, a limiter and a
-- cache are of any type; what their constructors return is an argument of `add`.
pub mod Patterns
pub mod Matching
pub mod Handle
pub mod Finish
pub mod Answers
pub mod Caching
mod Tests
mod HandleTests
use pulsegate.Base.{
  ℕ, ◌+◌, ◌/◌, max, Bool, true, false, not, ◌&&◌, ◌||◌, Option, none, some, List, [], ◌∷◌, ◌++◌,
  Bytes, codes, Dict, put, length, take, bytes_eq, up_to, to_string, leb, ◌==◌, if◌then◌else◌, pos,
  Result, ok, err, invalid_argument,
}
use pulsegate.Headers.{Headers}
use pulsegate.Headers
use pulsegate.Request.{HttpMethod}
use pulsegate.Response.{HttpResponse, empty_response}

unfoldable pub method_name : HttpMethod → Bytes
method_name HttpMethod.get = codes "GET"
method_name HttpMethod.head = codes "HEAD"
method_name HttpMethod.post = codes "POST"
method_name HttpMethod.put = codes "PUT"
method_name HttpMethod.delete = codes "DELETE"
method_name HttpMethod.options = codes "OPTIONS"
method_name HttpMethod.unknown = codes "UNKNOWN"

-- The value of the enumerator.
unfoldable pub method_index : HttpMethod → ℕ
method_index HttpMethod.get = 0
method_index HttpMethod.head = 1
method_index HttpMethod.post = 2
method_index HttpMethod.put = 3
method_index HttpMethod.delete = 4
method_index HttpMethod.options = 5
method_index HttpMethod.unknown = 6

-- `==` on methods
unfoldable pub same_method : HttpMethod → HttpMethod → Bool
unfolding method_index
same_method a b = method_index a == method_index b

pub record Route (H : Type 0) : Type 0 where
  pub method : HttpMethod
  pub pattern : Bytes
  pub name : Bytes
  pub prefix_match : Bool
  pub handler : Option H

pub record Router (H L C : Type 0) : Type 0 where
  pub routes : List (Route H)
  pub route_limiters : Dict L
  pub route_caches : Dict C

-- `starts_with`
unfoldable pub starts_with : Bytes → Bytes → Bool
starts_with text [] = true
starts_with [] (y ∷ ys) = false
starts_with (x ∷ xs) (y ∷ ys) = x == y && starts_with xs ys

-- `pattern.front() != '/'`, of a pattern that may be empty.
unfoldable pub is_absolute : Bytes → Bool
is_absolute [] = false
is_absolute (x ∷ xs) = x == 47

unfoldable pub path_part : Bytes → Bytes
path_part target = up_to 63 target

unfoldable pub make_error : ℕ → Bytes → Bytes → HttpResponse
make_error status_code reason body = record empty_response {
  status_code = pos status_code;
  reason = reason;
  body = body;
  headers = Headers.add (codes "Content-Type") (codes "text/plain") [];
}

-- The argument is the time to wait, in milliseconds; a limiter never returns a negative one.
unfoldable pub make_rate_limited : ℕ → HttpResponse
unfolding make_error
make_rate_limited milliseconds =
    let response = make_error 429 (codes "Too Many Requests") (codes "rate limit exceeded\n") in
    record response {
      headers =
          Headers.add (codes "Retry-After") (to_string (max 1 ((milliseconds + 999) / 1000)))
            response.headers;
    }

module _ {H : Type 0} where
  unfoldable pub route_matches : Route H → HttpMethod → Bytes → Bool
  route_matches route method path =
      if not (same_method route.method HttpMethod.unknown) && not (same_method route.method method)
      then false
      else if route.prefix_match
      then starts_with path route.pattern
      else bytes_eq path route.pattern

  -- `std::find_if` over the routes
  unfoldable pub find_route : HttpMethod → Bytes → List (Route H) → Option (Route H)
  unfolding route_matches
  find_route method path [] = none
  find_route method path (r ∷ rs) =
      if route_matches r method path then some r else find_route method path rs

  unfoldable pub match_route : HttpMethod → Bytes → List (Route H) → Option (Route H)
  unfolding path_part
  match_route method target routes = find_route method (path_part target) routes

  -- The test of the second search, which leaves the method out.
  unfoldable pub has_path : Bytes → Route H → Bool
  has_path path route =
      bytes_eq route.pattern path || (route.prefix_match && starts_with path route.pattern)

  -- The loop that collects the methods of the path: whether there is one, and the text of `Allow`.
  unfoldable pub collect_allow : Bytes → List (Route H) → Bool → Bytes → Bool × Bytes
  unfolding has_path method_name
  collect_allow path [] path_exists allow = (path_exists, allow)
  collect_allow path (r ∷ rs) path_exists allow =
      let found =
        collect_allow path rs true
          ((if length allow == 0 then allow else allow ++ codes ", ") ++ method_name r.method) in
      let missed = collect_allow path rs path_exists allow in
      if has_path path r then found else missed

  -- What `handle` answers where no route matches, before it sets the request id.
  unfoldable pub unmatched_response : Bytes → List (Route H) → HttpResponse
  unfolding collect_allow make_error
  unmatched_response path routes =
      let (path_exists, allow) = collect_allow path routes false [] in
      if path_exists
      then (let response =
            make_error 405 (codes "Method Not Allowed") (codes "method not allowed\n") in
          record response { headers = Headers.add (codes "Allow") allow response.headers })
      else make_error 404 (codes "Not Found") (codes "not found\n")

-- `!route.handler`
unfoldable pub has_no_handler : {H : Type 0} → Option H → Bool
has_no_handler none = true
has_no_handler (some h) = false

-- `(*map)[name] = value`, where a value is given.
unfoldable pub put_given : {A : Type 0} → Bytes → Option A → Dict A → Dict A
put_given name none d = d
put_given name (some a) d = put name a d

-- What the construction of an optional value returned.
unfoldable pub built : {A : Type 0} → Option (Result A) → Result (Option A)
built none = ok none
built (some (ok a)) = ok (some a)
built (some (err e)) = err e

unfoldable pub add :
    {H L C : Type 0}
    → Route H
    → Option (Result L)
    → Option (Result C)
    → Router H L C
    → Result (Unit {0}) × Router H L C
unfolding put_given built
add route limiter cache router =
    if not (is_absolute route.pattern) || (length route.name == 0 || has_no_handler route.handler)
    then (err invalid_argument, router)
    else elim (built limiter) [
      | err e ↦ (err e, router)
      | ok l ↦ elim (built cache) [
        | err e ↦ (err e, router)
        | ok c ↦ (
          ok tt,
          record router {
            routes = router.routes ++ route ∷ [];
            route_limiters = put_given route.name l router.route_limiters;
            route_caches = put_given route.name c router.route_caches;
          },
        )
      ]
    ]
