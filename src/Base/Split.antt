-- ===== src/Base/Split.antt =====
-- A list cut at a separator, against the loop that finds, takes and removes.
use Prim.Native.Nat.{ℕ, suc, ◌+◌, ◌<◌}
use mathlib.Core.Path.{◌≡◌, refl, ap, ◌∙◌}
use mathlib.Core.Logic.{◌⊎◌, inl, inr}
use mathlib.Core.List.{List, [], ◌∷◌}
use mathlib.Core.Option.{Option, none, some}
use mathlib.Core.Option
use native.Mathlib.Omega.{arith}
use pulsegate.Base.Tests.{◌==◌, if◌then◌else◌}
use pulsegate.Base.Lists.{length, take, drop}
use pulsegate.Base.Texts.{Bytes, find_byte}

abbrev cons_first : ℕ → List Bytes → List Bytes
cons_first x [] = (x ∷ []) ∷ []
cons_first x (p ∷ ps) = (x ∷ p) ∷ ps

-- The parts between the separators `c`. Nothing behind a last separator is no part.
unfoldable pub segments : ℕ → Bytes → List Bytes
segments c [] = []
segments c (x ∷ xs) = if x == c then [] ∷ segments c xs else cons_first x (segments c xs)

-- What `find` says of a byte in front.
pub find_byte_cons :
    (c x : ℕ) (xs : Bytes)
    → ((x ≡ c) × (find_byte c (x ∷ xs) ≡ some 0) × (segments c (x ∷ xs) ≡ [] ∷ segments c xs))
      ⊎ ((find_byte c (x ∷ xs) ≡ Option.map suc (find_byte c xs))
          × (segments c (x ∷ xs) ≡ cons_first x (segments c xs)))
unfolding find_byte segments
find_byte_cons c x xs = ground arith

-- With no separator the list is its one part; else the first part ends at the separator.
abbrev pub Cuts : ℕ → Bytes → Option ℕ → Type 0
Cuts c xs none = segments c xs ≡ xs ∷ []
Cuts c xs (some i) = (i < length xs) × (segments c xs ≡ take i xs ∷ segments c (drop (i + 1) xs))

Cuts-cons :
    (c x : ℕ) (xs : Bytes) (o : Option ℕ)
    → find_byte c xs ≡ o
    → segments c (x ∷ xs) ≡ cons_first x (segments c xs)
    → Cuts c xs o
    → Cuts c (x ∷ xs) (Option.map suc o)
Cuts-cons c x xs none f e cut = e ∙ ap (cons_first x) cut
Cuts-cons c x xs (some i) f e (lt, cut) = (
  omega (arith, lt),
  e ∙ ap (cons_first x) cut ∙ (let n : suc i + 1 ≡ suc (i + 1) = omega arith in rw n),
)

find_byte-Cuts' : (c x : ℕ) (xs : Bytes) → Cuts c (x ∷ xs) (find_byte c (x ∷ xs))
find_byte-Cuts' c x [] = elim (find_byte_cons c x []) [
  | inl (_, e, s) ↦ rw e (omega arith, s)
  | inr (e, s) ↦ rw e (unfold find_byte segments in (unfold segments in s))
]
find_byte-Cuts' c x (y ∷ ys) = elim (find_byte_cons c x (y ∷ ys)) [
  | inl (_, e, s) ↦ rw e (omega arith, s)
  | inr (e, s) ↦
      rw e (Cuts-cons c x (y ∷ ys) (find_byte c (y ∷ ys)) refl s (find_byte-Cuts' c y ys))
]

pub find_byte-Cuts : (c : ℕ) (xs : Bytes) → 0 < length xs → Cuts c xs (find_byte c xs)
find_byte-Cuts c [] h = absurd (omega arith)
find_byte-Cuts c (x ∷ xs) h = find_byte-Cuts' c x xs
