-- ===== src/Router/Matching.antt =====
-- The routes that src/http/router.cpp finds, and the answer where it finds none.
use pulsegate.Base.{
  ◌≡◌, refl, ap, sym, ◌∙◌, ◌⊎◌, inl, inr, Bool, true, false, ◌&&◌, ◌||◌, none, some, List, [], ◌∷◌,
  ◌++◌, Bytes, codes, any_of, bytes_eq_iff, length, ◌==◌, if◌then◌else◌, arith, Bool-cases, pos,
}
use pulsegate.Request.{HttpMethod}
use pulsegate.Router.Patterns.{
  Matches, NoneMatch, starts_with_refl, route_matches-Matches, any_of-NoneMatch,
}
use pulsegate.Router.{
  Route, route_matches, find_route, has_path, collect_allow, unmatched_response, make_error,
  starts_with, same_method, method_name,
}

module _ {H : Type 0} where
  -- The first route that matches, with the routes before it, none of which does.
  abbrev pub FirstMatch : HttpMethod → Bytes → List (Route H) → Route H → Type 0
  FirstMatch method path routes r =
      (before : List (Route H)) × (after : List (Route H)) × (routes ≡ before ++ r ∷ after)
      × Matches method path r
      × NoneMatch method path before

  -- The search, with the tests of the source.
  find_route_cases :
      (method : HttpMethod) (path : Bytes) (routes : List (Route H))
      → ((r : Route H) × (before : List (Route H)) × (after : List (Route H)) × (find_route method
              path routes
            ≡ some r)
          × (routes ≡ before ++ r ∷ after)
          × (route_matches r method path ≡ true)
          × (any_of (λ q. route_matches q method path) before ≡ false))
        ⊎ ((find_route method path routes ≡ none)
            × (any_of (λ q. route_matches q method path) routes ≡ false))
  unfolding find_route any_of
  find_route_cases method path [] = inr (refl, refl)
  find_route_cases method path (r ∷ rs) = elim (Bool-cases (route_matches r method path)) [
    | inl hit ↦ inl (r, [], rs, rw hit refl, refl, hit, refl)
    | inr miss ↦ elim (find_route_cases method path rs) [
      | inl (q, before, after, found, split, hit, none_before) ↦
          inl (q, r ∷ before, after, rw miss found, ap (λ t. r ∷ t) split, hit, rw miss none_before)
      | inr (missing, none_at_all) ↦ inr (rw miss missing, rw miss none_at_all)
    ]
  ]

  -- The search returns the first route in the table that matches: whose method is the one of the request
  -- or none in particular, and whose pattern is the path, or a prefix of it where the route is for a
  -- prefix. It returns nothing where no route of the table matches.
  pub find_route-FirstMatch :
      (method : HttpMethod) (path : Bytes) (routes : List (Route H))
      → ((r : Route H) × (find_route method path routes ≡ some r) × FirstMatch method path routes r)
        ⊎ ((find_route method path routes ≡ none) × NoneMatch method path routes)
  find_route-FirstMatch method path routes = elim (find_route_cases method path routes) [
    | inl (r, before, after, found, split, hit, none_before) ↦ inl (
      r,
      found,
      (
        before,
        after,
        split,
        (route_matches-Matches r method path).0 hit,
        any_of-NoneMatch method path before none_before,
      ),
    )
    | inr (missing, none_at_all) ↦ inr (missing, any_of-NoneMatch method path routes none_at_all)
  ]

  -- The routes of the path that can still take a request of this method.
  pub accepts : HttpMethod → Route H → Bool
  accepts method r = same_method r.method HttpMethod.unknown || same_method r.method method

  -- The two tests of the source agree: a route that matches is one of the path that accepts the method.
  matches-path :
      (r : Route H) (method : HttpMethod) (path : Bytes)
      → route_matches r method path ≡ (has_path path r && accepts method r)
  unfolding route_matches has_path accepts
  matches-path r method path =
      ground (arith, bytes_eq_iff path r.pattern, bytes_eq_iff r.pattern path, equal)
    where
      equal : r.pattern ≡ path → starts_with path r.pattern ≡ true
      equal e = rw e (starts_with_refl path)

  exists-collect_allow :
      (path : Bytes) (routes : List (Route H)) (found : Bool) (allow : Bytes)
      → (collect_allow path routes found allow).0 ≡ (found || any_of (has_path path) routes)
  unfolding collect_allow any_of
  exists-collect_allow path [] found allow = ground arith
  exists-collect_allow path (r ∷ rs) found allow =
      let next =
        (if length allow == 0 then allow else allow ++ codes ", ") ++ method_name r.method in
      ground
        (arith, exists-collect_allow path rs true next, exists-collect_allow path rs found allow)

  status-unmatched_response :
      (path : Bytes) (routes : List (Route H))
      → (unmatched_response path routes).status_code
        ≡ pos (if any_of (has_path path) routes then 405 else 404)
  unfolding unmatched_response make_error
  status-unmatched_response path routes = ground (arith, exists-collect_allow path routes false [])

  any_of-matches :
      (method : HttpMethod) (path : Bytes) (routes : List (Route H))
      → any_of (λ q. route_matches q method path) routes
        ≡ any_of (λ q. has_path path q && accepts method q) routes
  unfolding any_of
  any_of-matches method path [] = refl
  any_of-matches method path (r ∷ rs) =
      rw (matches-path r method path, any_of-matches method path rs) refl

  -- Where the search finds no route, the answer is 405 if a route has the path and 404 if none has it,
  -- and each route that has the path is for one other method.
  pub find_route-unmatched :
      (method : HttpMethod) (path : Bytes) (routes : List (Route H))
      → find_route method path routes ≡ none
      → ((unmatched_response path routes).status_code
          ≡ pos (if any_of (has_path path) routes then 405 else 404))
        × (any_of (λ q. has_path path q && accepts method q) routes ≡ false)
  find_route-unmatched method path routes h = (
    status-unmatched_response path routes,
    elim (find_route_cases method path routes) [
      | inl (r, before, after, found, split, hit, none_before) ↦ absurd (cc (h, found))
      | inr (missing, none_at_all) ↦ sym (any_of-matches method path routes) ∙ none_at_all
    ],
  )
