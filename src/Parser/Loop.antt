-- ===== src/Parser/Loop.antt =====
-- The loop of `parse` in src/http/http_parser.cpp: it ends, and throws nothing.
use pulsegate.Base.{
  ℕ, zero, suc, ◌+◌, ◌≤◌, ◌<◌, ◌≡◌, refl, ap, sym, ◌∙◌, inl, inr, Option, none, some, [], ◌∷◌, ◌++◌,
  Bytes, length, take, ltb, Result, ok, arith, Bool-cases, length-drop, length-append,
  take-append-drop, append_assoc, subst,
}
use pulsegate.Buffer.{Buffer, readable_bytes, readable_view, search_crlf}
use pulsegate.Buffer.Inv.{IsValid, length-readable_view}
use pulsegate.Buffer.Stream.{Shows}
use pulsegate.Buffer.Search.{search_crlf-FirstCrlf}
use pulsegate.Parser.{
  HttpParser, ParseState, ParseResult, Verdict, pending_too_large, line_too_large, after_round,
  parse_loop, parse,
}
use pulsegate.Parser.View.{
  line_view, body_view, round_view, after_view, loop_view, parse_view, round-Agrees,
}

-- A round that goes on takes a line end at least; every round leaves an end of the bytes.
abbrev pub Consumes : Bytes → Verdict × HttpParser × Bytes → Type 0
Consumes bytes (verdict, p, rest) =
    ((l : Bytes) × (bytes ≡ l ++ rest)) × (verdict ≡ none → length rest + 2 ≤ length bytes)

line_view-Consumes :
    (p : HttpParser) (bytes : Bytes) (o : Option ℕ)
    → search_crlf bytes ≡ o
    → Consumes bytes (line_view p bytes o)
unfolding line_view
line_view-Consumes p bytes none e = elim (Bool-cases (pending_too_large (length bytes) p)) [
  | inl large ↦ rw large (([], refl), λ h. cc)
  | inr small ↦ rw small (([], refl), λ h. cc)
]
line_view-Consumes p bytes (some i) e = elim (Bool-cases (line_too_large i p)) [
  | inl large ↦ rw large (([], refl), λ h. cc)
  | inr small ↦
      let (l, r, split, at, _) = search_crlf-FirstCrlf bytes i e in
      rw small (
        (take (i + 2) bytes, sym (take-append-drop (i + 2) bytes)),
        λ h.
            omega (
              arith,
              length-drop (i + 2) bytes,
              ap length split,
              length-append l (13 ∷ 10 ∷ r),
              at,
            ),
      )
]

body_view-Consumes : (p : HttpParser) (bytes : Bytes) → Consumes bytes (body_view p bytes)
unfolding body_view
body_view-Consumes p bytes = elim (Bool-cases (ltb (length bytes) p.expected_body_bytes)) [
  | inl short ↦ rw short (([], refl), λ h. cc)
  | inr enough ↦ rw enough (
    (take p.expected_body_bytes bytes, sym (take-append-drop p.expected_body_bytes bytes)),
    λ h. cc,
  )
]

pub round_view-Consumes : (p : HttpParser) (bytes : Bytes) → Consumes bytes (round_view p bytes)
unfolding round_view
round_view-Consumes p bytes = go p.state
  where
    go :
        (s : ParseState)
        → Consumes bytes (elim s [
          | ParseState.body ↦ body_view p bytes
          | _ ↦ line_view p bytes (search_crlf bytes)
        ])
    go ParseState.body = body_view-Consumes p bytes
    go _ = line_view-Consumes p bytes (search_crlf bytes) refl

-- The code returns the result of the bytes' loop, leaves its parser, and shows the bytes it leaves.
abbrev pub Returns :
    Buffer
    → Result ParseResult × HttpParser × Buffer
    → Option ParseResult × HttpParser × Bytes
    → Type 0
Returns b r s =
    (result : ParseResult) × (s.0 ≡ some result)
    × (b' : Buffer) × (r ≡ (ok result, s.1, b'))
    × Shows b s.2 b'
    × ((l : Bytes) × (readable_view b ≡ l ++ s.2))

-- The rounds that are left, seen from the buffer before the round.
Returns-after :
    {b b₁ : Buffer} {rest : Bytes} (r : Result ParseResult × HttpParser × Buffer)
    (s : Option ParseResult × HttpParser × Bytes)
    → Shows b rest b₁
    → ((l : Bytes) × (readable_view b ≡ l ++ rest))
    → Returns b₁ r s
    → Returns b r s
Returns-after r s shown (l, split) (result, e, b', re, shown', (l', split')) = (
  result,
  e,
  b',
  re,
  record {
    valid = shown'.valid;
    unprepared = shown'.unprepared;
    view = shown'.view;
    maximum = shown'.maximum ∙ shown.maximum;
  },
  (l ++ l', split ∙ ap (◌++◌ l) (sym shown.view ∙ split') ∙ sym (append_assoc l l' s.2)),
)

parse_loop-Returns :
    (fuel : ℕ) (p : HttpParser) (b : Buffer)
    → IsValid b
    → b.prepared_bytes ≡ 0
    → readable_bytes b < fuel
    → Returns b (parse_loop fuel p b) (loop_view fuel p (readable_view b))
unfolding parse_loop loop_view
parse_loop-Returns zero p b v closed h = absurd (omega arith)
parse_loop-Returns (suc fuel) p b v closed h =
    let (b₁, e, shown) = round-Agrees p b v closed in
    rw e (
      go (round_view p (readable_view b)) b₁ shown (round_view-Consumes p (readable_view b))
        (parse_loop-Returns fuel))
  where
    go :
        (s : Verdict × HttpParser × Bytes) (b₁ : Buffer)
        → Shows b s.2 b₁
        → Consumes (readable_view b) s
        → ((q : HttpParser) (c : Buffer)
            → IsValid c
            → c.prepared_bytes ≡ 0
            → readable_bytes c < fuel
            → Returns c (parse_loop fuel q c) (loop_view fuel q (readable_view c)))
        → Returns b
            (after_round (parse_loop fuel) (ok s.0, s.1, b₁))
            (after_view (loop_view fuel) s)
    go (some result, p', rest) b₁ shown (ends, _) ih = (result, refl, b₁, refl, shown, ends)
    go (none, p', rest) b₁ shown (ends, smaller) ih =
        let fewer : readable_bytes b₁ < fuel = omega (
          arith,
          smaller refl,
          ap length shown.view,
          length-readable_view b v,
          length-readable_view b₁ shown.valid,
        ) in
        Returns-after _ _ shown ends (
          subst (λ t. Returns b₁ (parse_loop fuel p' b₁) (loop_view fuel p' t)) shown.view
            (ih p' b₁ shown.valid shown.unprepared fewer))

-- On a valid buffer with no open `prepare`, `parse` returns: it never throws, and its loop ends. What
-- it returns and the parser that it leaves depend on the readable bytes only, as `parse_view` computes
-- them; the buffer stays valid, and shows an end of the bytes that it showed.
pub parse-Returns :
    (p : HttpParser) (b : Buffer)
    → IsValid b
    → b.prepared_bytes ≡ 0
    → Returns b (parse p b) (parse_view p (readable_view b))
unfolding parse parse_view
parse-Returns p b v closed = go p.state
  where
    same : Shows b (readable_view b) b
    same = record { valid = v; unprepared = closed; view = refl; maximum = refl }

    looped :
        Returns b
          (parse_loop (suc (readable_bytes b)) p b)
          (loop_view (suc (length (readable_view b))) p (readable_view b))
    looped =
        rw (length-readable_view b v)
          (parse_loop-Returns (suc (readable_bytes b)) p b v closed (omega arith))

    go :
        (s : ParseState)
        → Returns b
            (elim s [
              | ParseState.complete ↦ (ok ParseResult.complete, p, b)
              | ParseState.error ↦ (ok p.error_result, p, b)
              | _ ↦ parse_loop (suc (readable_bytes b)) p b
            ])
            (elim s [
              | ParseState.complete ↦ (some ParseResult.complete, p, readable_view b)
              | ParseState.error ↦ (some p.error_result, p, readable_view b)
              | _ ↦ loop_view (suc (length (readable_view b))) p (readable_view b)
            ])
    go ParseState.complete = (ParseResult.complete, refl, b, refl, same, ([], refl))
    go ParseState.error = (p.error_result, refl, b, refl, same, ([], refl))
    go _ = looped
