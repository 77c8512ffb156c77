-- ===== src/Router/Patterns.antt =====
-- What it is for a route of src/http/router.cpp to match a request, said without its tests.
use pulsegate.Base.{
  ℕ, ◌≡◌, refl, ap, sym, ◌∙◌, ◌⊎◌, ◌↔◌, Bool, true, false, not, bytes_eq, ◌&&◌, List, [], ◌∷◌, ◌++◌,
  Bytes, any_of, bytes_eq_iff, ◌==◌, if◌then◌else◌, arith,
}
use mathlib.Core.Path.{ap₂}
use pulsegate.Request.{HttpMethod}
use pulsegate.Router.{Route, route_matches, starts_with, same_method, method_index}

pub starts_with_refl : (xs : Bytes) → starts_with xs xs ≡ true
unfolding starts_with
starts_with_refl [] = refl
starts_with_refl (x ∷ xs) = ground (arith, starts_with_refl xs)

-- A path that has the pattern of a route: the pattern itself, or with text after it for a prefix.
abbrev pub HasPattern : Bool → Bytes → Bytes → Type 0
HasPattern false pattern path = path ≡ pattern
HasPattern true pattern path = (rest : Bytes) × (path ≡ pattern ++ rest)

-- The method with that value of the enumerator.
method_of : ℕ → HttpMethod
method_of n =
    if n == 0
    then HttpMethod.get
    else if n == 1
    then HttpMethod.head
    else if n == 2
    then HttpMethod.post
    else if n == 3
    then HttpMethod.put
    else if n == 4
    then HttpMethod.delete
    else if n == 5
    then HttpMethod.options
    else HttpMethod.unknown

method_of-method_index : (a : HttpMethod) → method_of (method_index a) ≡ a
unfolding method_of method_index
method_of-method_index HttpMethod.get = refl
method_of-method_index HttpMethod.head = refl
method_of-method_index HttpMethod.post = refl
method_of-method_index HttpMethod.put = refl
method_of-method_index HttpMethod.delete = refl
method_of-method_index HttpMethod.options = refl
method_of-method_index HttpMethod.unknown = refl

same_method_iff : (a b : HttpMethod) → (same_method a b ≡ true) ↔ (a ≡ b)
unfolding same_method
same_method_iff a b = (
  λ h. sym (method_of-method_index a) ∙ ap method_of (ground (arith, h)) ∙ method_of-method_index b,
  λ e. rw e (ground arith),
)

starts_with_append : (xs rest : Bytes) → starts_with (xs ++ rest) xs ≡ true
unfolding starts_with
starts_with_append [] rest = refl
starts_with_append (x ∷ xs) rest = ground (arith, starts_with_append xs rest)

starts_with-HasPattern :
    (text pattern : Bytes) → starts_with text pattern ≡ true → HasPattern true pattern text
unfolding starts_with
starts_with-HasPattern text [] h = (text, refl)
starts_with-HasPattern [] (y ∷ ys) h = absurd (cc h)
starts_with-HasPattern (x ∷ xs) (y ∷ ys) h =
    let (rest, e) = starts_with-HasPattern xs ys (ground (arith, h)) in
    (rest, ap₂ ◌∷◌ (ground (arith, h)) e)

path_test :
    (prefix_match : Bool) (pattern path : Bytes)
    → ((if prefix_match then starts_with path pattern else bytes_eq path pattern) ≡ true)
      ↔ HasPattern prefix_match pattern path
path_test false pattern path = bytes_eq_iff path pattern
path_test true pattern path =
    (starts_with-HasPattern path pattern, λ (rest, e). rw e (starts_with_append pattern rest))

module _ {H : Type 0} where
  -- The path has the pattern of the route, and the method is that of the route where it names one.
  abbrev pub Matches : HttpMethod → Bytes → Route H → Type 0
  Matches method path r =
      ((r.method ≡ HttpMethod.unknown) ⊎ (r.method ≡ method))
      × HasPattern r.prefix_match r.pattern path

  abbrev pub NoneMatch : HttpMethod → Bytes → List (Route H) → Type 0
  NoneMatch method path [] = Unit
  NoneMatch method path (r ∷ rs) = (¬ Matches method path r) × NoneMatch method path rs

  method_test :
      (r : Route H) (method : HttpMethod)
      → ((not (same_method r.method HttpMethod.unknown) && not (same_method r.method method))
          ≡ false)
        ↔ ((r.method ≡ HttpMethod.unknown) ⊎ (r.method ≡ method))
  method_test r method =
      ground (arith, same_method_iff r.method HttpMethod.unknown, same_method_iff r.method method)

  pub route_matches-Matches :
      (r : Route H) (method : HttpMethod) (path : Bytes)
      → (route_matches r method path ≡ true) ↔ Matches method path r
  unfolding route_matches
  route_matches-Matches r method path = (
    λ h. (
      (method_test r method).0 (ground (arith, h)),
      (path_test r.prefix_match r.pattern path).0 (ground (arith, h)),
    ),
    λ (m, p).
        ground (arith, (method_test r method).1 m, (path_test r.prefix_match r.pattern path).1 p),
  )

  pub any_of-NoneMatch :
      (method : HttpMethod) (path : Bytes) (routes : List (Route H))
      → any_of (λ q. route_matches q method path) routes ≡ false
      → NoneMatch method path routes
  unfolding any_of
  any_of-NoneMatch method path [] h = tt
  any_of-NoneMatch method path (r ∷ rs) h = (
    λ m. absurd (cc (h, (route_matches-Matches r method path).1 m)),
    any_of-NoneMatch method path rs (ground (arith, h)),
  )
