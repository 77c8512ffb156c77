-- ===== src/Buffer/Search.antt =====
-- `findCrlf` of src/net/buffer.cpp, against the places where the bytes hold a line end.
use pulsegate.Base.{
  ℕ, suc, ◌+◌, ◌≤◌, ◌≡◌, ◌≢◌, refl, ap, sym, ◌∙◌, ◌⊎◌, inl, inr, true, false, ◌&&◌, Option, none,
  some, [], ◌∷◌, ◌++◌, Bytes, length, arith, ◌==◌, Bool-cases,
}
use mathlib.Core.Option
use pulsegate.Buffer.{Buffer, readable_view, search_crlf, find_crlf}

-- `i` is the first place of a line end: the bytes split there, and no line end starts before.
abbrev pub FirstCrlf : ℕ → Bytes → Type 0
FirstCrlf i xs =
    (l : Bytes) × (r : Bytes) × (xs ≡ l ++ 13 ∷ 10 ∷ r)
    × (length l ≡ i)
    × ((l' r' : Bytes) → xs ≡ l' ++ 13 ∷ 10 ∷ r' → i ≤ length l')

search_crlf_cons :
    (x y : ℕ) (rest : Bytes)
    → ((x ≡ 13) × (y ≡ 10) × (search_crlf (x ∷ (y ∷ rest)) ≡ some 0))
      ⊎ (search_crlf (x ∷ (y ∷ rest)) ≡ Option.map suc (search_crlf (y ∷ rest)))
unfolding search_crlf
search_crlf_cons x y rest = ground arith

-- Where the bytes have a line end, the search stops there or before.
pub search_crlf_before :
    (l r : Bytes) → (j : ℕ) × (search_crlf (l ++ 13 ∷ 10 ∷ r) ≡ some j) × (j ≤ length l)
search_crlf_before [] r = (0, unfold search_crlf in refl, omega arith)
search_crlf_before (x ∷ []) r =
    let (j, e, le) = search_crlf_before [] r in
    elim (search_crlf_cons x 13 (10 ∷ r)) [
      | inl (_, _, first) ↦ (0, first, omega arith)
      | inr later ↦ (suc j, later ∙ ap (Option.map suc) e, omega (arith, le))
    ]
search_crlf_before (x ∷ (y ∷ l)) r =
    let (j, e, le) = search_crlf_before (y ∷ l) r in
    elim (search_crlf_cons x y (l ++ 13 ∷ 10 ∷ r)) [
      | inl (_, _, first) ↦ (0, first, omega arith)
      | inr later ↦ (suc j, later ∙ ap (Option.map suc) e, omega (arith, le))
    ]

map-suc-some :
    (o : Option ℕ) {i : ℕ} → Option.map suc o ≡ some i → (j : ℕ) × (o ≡ some j) × (i ≡ suc j)
map-suc-some none h = cc
map-suc-some (some j) h = (j, refl, ground arith)

pub search_crlf_found :
    (xs : Bytes) (i : ℕ)
    → search_crlf xs ≡ some i
    → (l : Bytes) × (r : Bytes) × (xs ≡ l ++ 13 ∷ 10 ∷ r) × (length l ≡ i)
search_crlf_found [] i h = absurd (unfold search_crlf in cc h)
search_crlf_found (x ∷ []) i h = absurd (unfold search_crlf in cc h)
search_crlf_found (x ∷ (y ∷ rest)) i h = elim (search_crlf_cons x y rest) [
  | inl (ex, ey, first) ↦ ([], rest, rw (ex, ey), ground arith)
  | inr later ↦
      let (j, e, sucj) = map-suc-some (search_crlf (y ∷ rest)) (sym later ∙ h) in
      let (l, r, split, len) = search_crlf_found (y ∷ rest) j e in
      (x ∷ l, r, ap (λ t. x ∷ t) split, omega (arith, len, sucj))
]

pub search_crlf-FirstCrlf : (xs : Bytes) (i : ℕ) → search_crlf xs ≡ some i → FirstCrlf i xs
search_crlf-FirstCrlf xs i h =
    let (l, r, split, len) = search_crlf_found xs i h in (l, r, split, len, first)
  where
    first : (l' r' : Bytes) → xs ≡ l' ++ 13 ∷ 10 ∷ r' → i ≤ length l'
    first l' r' e =
        let (j, found, le) = search_crlf_before l' r' in
        let same : some i ≡ some j = sym h ∙ ap search_crlf e ∙ found in ground (arith, same, le)

-- `findCrlf` returns the place of the first line end of the readable bytes, and a null pointer exactly
-- when they hold none.
pub find_crlf_lem :
    (b : Buffer)
    → ((i : ℕ) × (find_crlf b ≡ some (b.read_index + i)) × FirstCrlf i (readable_view b))
      ⊎ ((find_crlf b ≡ none) × ((l r : Bytes) → readable_view b ≢ l ++ 13 ∷ 10 ∷ r))
unfolding find_crlf
find_crlf_lem b = go (search_crlf (readable_view b)) refl
  where
    go :
        (o : Option ℕ)
        → search_crlf (readable_view b) ≡ o
        → ((i : ℕ) × (Option.map (λ i. b.read_index + i) o ≡ some (b.read_index + i))
            × FirstCrlf i (readable_view b))
          ⊎ ((Option.map (λ i. b.read_index + i) o ≡ none)
              × ((l r : Bytes) → readable_view b ≢ l ++ 13 ∷ 10 ∷ r))
    go none e = inr (
      refl,
      λ l r h. let (j, found, _) = search_crlf_before l r in cc (e, found, ap search_crlf h),
    )
    go (some i) e = inl (i, refl, search_crlf-FirstCrlf (readable_view b) i e)

-- Bytes that arrive later do not move the first line end.
pub search_crlf-append :
    (xs ys : Bytes) (i : ℕ) → search_crlf xs ≡ some i → search_crlf (xs ++ ys) ≡ some i
search_crlf-append [] ys i h = absurd (unfold search_crlf in cc h)
search_crlf-append (x ∷ []) ys i h = absurd (unfold search_crlf in cc h)
search_crlf-append (x ∷ (y ∷ rest)) ys i h = elim (Bool-cases (x == 13 && y == 10)) [
  | inl hit ↦ step hit (rest ++ ys) ∙ sym (step hit rest) ∙ h
  | inr miss ↦
      let (j, e, sucj) = map-suc-some (search_crlf (y ∷ rest)) (sym (skip miss rest) ∙ h) in
      skip miss (rest ++ ys)
      ∙ ap (Option.map suc) (search_crlf-append (y ∷ rest) ys j e)
      ∙ ap some (sym sucj)
]
  where
    step : (x == 13 && y == 10) ≡ true → (t : Bytes) → search_crlf (x ∷ (y ∷ t)) ≡ some 0
    step hit t = unfold search_crlf in rw hit

    skip :
        (x == 13 && y == 10) ≡ false
        → (t : Bytes) → search_crlf (x ∷ (y ∷ t)) ≡ Option.map suc (search_crlf (y ∷ t))
    skip miss t = unfold search_crlf in rw miss
