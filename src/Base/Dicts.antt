-- ===== src/Base/Dicts.antt =====
-- `std::unordered_map` with string keys, as an association list. The order of its entries is not
-- specified, and no statement depends on it.
use mathlib.Core.Path.{◌≡◌, refl}
use mathlib.Core.List.{List, [], ◌∷◌}
use mathlib.Core.Option.{Option, none, some}
use native.Mathlib.Omega.{arith}
use pulsegate.Base.Tests.{if◌then◌else◌}
use pulsegate.Base.Texts.{Bytes, bytes_eq, bytes_eq_iff}

abbrev pub Dict {ℓ} : Type ℓ → Type ℓ
Dict V = List (Bytes × V)

module _ {ℓ} {V : Type ℓ} where
  unfoldable pub lookup : Bytes → Dict V → Option V
  lookup k [] = none
  lookup k ((j, v) ∷ d) = if bytes_eq j k then some v else lookup k d

  -- `map[k] = v`
  unfoldable pub put : Bytes → V → Dict V → Dict V
  put k v [] = (k, v) ∷ []
  put k v ((j, w) ∷ d) = if bytes_eq j k then (j, v) ∷ d else (j, w) ∷ put k v d

  -- `map.emplace(k, v)`: an entry that is there stays.
  unfoldable pub emplace : Bytes → V → Dict V → Dict V
  emplace k v [] = (k, v) ∷ []
  emplace k v ((j, w) ∷ d) = if bytes_eq j k then (j, w) ∷ d else (j, w) ∷ emplace k v d

  pub lookup-put :
      (j k : Bytes) (v : V) (d : Dict V)
      → lookup j (put k v d) ≡ (if bytes_eq k j then some v else lookup j d)
  unfolding lookup put
  lookup-put j k v [] = refl
  lookup-put j k v ((i, w) ∷ d) =
      ground (arith, bytes_eq_iff k j, bytes_eq_iff i k, bytes_eq_iff i j, lookup-put j k v d)

  abbrev pub or_else : Option V → V → Option V
  or_else none v = some v
  or_else (some w) v = some w

  pub lookup-emplace :
      (j k : Bytes) (v : V) (d : Dict V)
      → lookup j (emplace k v d) ≡ (if bytes_eq k j then or_else (lookup j d) v else lookup j d)
  unfolding lookup emplace
  lookup-emplace j k v [] = refl
  lookup-emplace j k v ((i, w) ∷ d) =
      ground (arith, bytes_eq_iff k j, bytes_eq_iff i k, bytes_eq_iff i j, lookup-emplace j k v d)
