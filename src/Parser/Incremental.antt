-- ===== src/Parser/Incremental.antt =====
-- `parse` of src/http/http_parser.cpp on bytes that arrive in pieces.
use pulsegate.Base.{
  ℕ, zero, suc, ◌+◌, ◌≤◌, ◌<◌, ◌≡◌, ◌≢◌, refl, ap, sym, ◌∙◌, inl, inr, Bool, true, false, Option,
  none, some, List, [], ◌∷◌, ◌++◌, Bytes, length, take, ltb, ◌==◌, ok, arith, Bool-cases,
  length-append, take-append_le, drop-append_le, add64, codes,
}
use pulsegate.Headers.{values}
use pulsegate.Buffer.{Buffer, readable_view, search_crlf}
use pulsegate.Buffer.Inv.{IsValid}
use pulsegate.Buffer.Search.{search_crlf-FirstCrlf, search_crlf-append}
use pulsegate.Parser.{
  HttpParser, ParseState, ParseResult, Verdict, pending_too_large, line_too_large, take_line, parse,
  after_request_line, after_headers, after_header, parse_request_line, parse_header, finish_headers,
  content_length, is_request_line,
}
use pulsegate.Parser.View.{line_view, body_view, round_view, after_view, loop_view, parse_view}
use pulsegate.Parser.Loop.{round_view-Consumes, Consumes, parse-Returns}

-- The parser has not come to an end.
abbrev pub is_live : ParseState → Bool
is_live ParseState.complete = false
is_live ParseState.error = false
is_live _ = true

-- A line is never a reason to wait, and leaves a parser that goes on live.
abbrev pub Decides : Verdict × HttpParser → Type 0
Decides (verdict, p) =
    (verdict ≢ some ParseResult.need_more) × (verdict ≡ none → is_live p.state ≡ true)

-- A part of the parser gives a result of its own, and leaves the state alone.
abbrev pub Parses : HttpParser → ParseResult × HttpParser → Type 0
Parses p (result, p') = (result ≢ ParseResult.need_more) × (p'.state ≡ p.state)

parse_request_line-Parses : (line : Bytes) (p : HttpParser) → Parses p (parse_request_line line p)
unfolding parse_request_line
parse_request_line-Parses line p = ground arith

parse_header-Parses : (line : Bytes) (p : HttpParser) → Parses p (parse_header line p)
unfolding parse_header
parse_header-Parses line p = ground arith

content_length-Parses : (values : List Bytes) (p : HttpParser) → Parses p (content_length values p)
unfolding content_length
content_length-Parses [] p = ground arith
content_length-Parses (value ∷ []) p = ground arith
content_length-Parses (value ∷ (value' ∷ more)) p = ground arith

finish_headers-Parses : (p : HttpParser) → Parses p (finish_headers p)
unfolding finish_headers
finish_headers-Parses p =
    ground (arith, content_length-Parses (values (codes "content-length") p.request.headers) p)

after_headers-Decides :
    (r : ParseResult × HttpParser) → r.0 ≢ ParseResult.need_more → Decides (after_headers r)
unfolding after_headers
after_headers-Decides (ParseResult.complete, p) h = elim (Bool-cases (p.expected_body_bytes == 0)) [
  | inl none_expected ↦ rw none_expected (λ e. cc, λ e. cc)
  | inr expected ↦ rw expected (λ e. cc, λ e. refl)
]
after_headers-Decides (ParseResult.need_more, p) h = absurd (h refl)
after_headers-Decides (result, p) h = (λ e. cc, λ e. cc)

after_request_line-Decides :
    (n : ℕ) (r : ParseResult × HttpParser)
    → r.0 ≢ ParseResult.need_more
    → Decides (after_request_line n r)
unfolding after_request_line
after_request_line-Decides n (ParseResult.complete, p) h = (λ e. cc, λ e. refl)
after_request_line-Decides n (ParseResult.need_more, p) h = absurd (h refl)
after_request_line-Decides n (result, p) h = (λ e. cc, λ e. cc)

after_header-Decides :
    (r : ParseResult × HttpParser)
    → r.0 ≢ ParseResult.need_more
    → is_live (r.1.state) ≡ true
    → Decides (after_header r)
unfolding after_header
after_header-Decides (ParseResult.complete, p) h live = (λ e. cc, λ e. live)
after_header-Decides (ParseResult.need_more, p) h live = absurd (h refl)
after_header-Decides (result, p) h live = (λ e. cc, λ e. cc)

take_line-Decides :
    (line : Bytes) (p : HttpParser) → is_live p.state ≡ true → Decides (take_line line p)
unfolding take_line
take_line-Decides line p live =
    let counted = record p { header_bytes = add64 p.header_bytes (add64 (length line) 2) } in
    elim (Bool-cases (is_request_line p.state)) [
      | inl first ↦ rw first (
          after_request_line-Decides (add64 (length line) 2) (parse_request_line line p)
            (parse_request_line-Parses line p).0)
      | inr later ↦ elim (Bool-cases (length line == 0)) [
        | inl blank ↦
            rw (later, blank)
              (after_headers-Decides (finish_headers counted) (finish_headers-Parses counted).0)
        | inr header ↦
            rw (later, header)
              (after_header-Decides (parse_header line counted) (parse_header-Parses line counted).0
                (ap is_live (parse_header-Parses line counted).1 ∙ live))
      ]
    ]

-- What a round does when more bytes stand behind those that it saw: a round that goes on does the same
-- and leaves them, and a round that waits has done nothing.
abbrev pub Extends :
    HttpParser
    → Bytes
    → Bytes
    → Verdict × HttpParser × Bytes
    → Verdict × HttpParser × Bytes
    → Type 0
Extends p bytes more (verdict, p', rest) extended =
    (verdict ≡ none
      → (is_live p'.state ≡ true)
        × (extended.0 ≡ none)
        × (extended.1 ≡ p')
        × (extended.2 ≡ rest ++ more))
    × (verdict ≡ some ParseResult.need_more → (p' ≡ p) × (rest ≡ bytes))

line_view-Extends :
    (p : HttpParser) (bytes more : Bytes) (o : Option ℕ)
    → is_live p.state ≡ true
    → search_crlf bytes ≡ o
    → Extends p bytes more
        (line_view p bytes o)
        (line_view p (bytes ++ more) (search_crlf (bytes ++ more)))
line_view-Extends p bytes more none live e =
    elim (Bool-cases (pending_too_large (length bytes) p)) [
      | inl large ↦ unfold line_view in rw large (λ h. cc, λ h. cc)
      | inr small ↦ unfold line_view in rw small (λ h. cc, λ h. (refl, refl))
    ]
line_view-Extends p bytes more (some i) live e = elim (Bool-cases (line_too_large i p)) [
  | inl large ↦ unfold line_view in rw (search_crlf-append bytes more i e, large) (λ h. cc, λ h. cc)
  | inr small ↦
      unfold line_view in
      rw
        (
          search_crlf-append bytes more i e,
          small,
          take-append_le i bytes more (omega (arith, inside)),
          drop-append_le (i + 2) bytes more inside,
        )
        (
          λ h. ((take_line-Decides (take i bytes) p live).1 h, h, refl, refl),
          λ h. absurd ((take_line-Decides (take i bytes) p live).0 h),
        )
]
  where
    inside : i + 2 ≤ length bytes
    inside =
        let (l, r, split, at, _) = search_crlf-FirstCrlf bytes i e in
        omega (arith, ap length split, length-append l (13 ∷ 10 ∷ r), at)

body_view-Extends :
    (p : HttpParser) (bytes more : Bytes)
    → Extends p bytes more (body_view p bytes) (body_view p (bytes ++ more))
unfolding body_view
body_view-Extends p bytes more = elim (Bool-cases (ltb (length bytes) p.expected_body_bytes)) [
  | inl short ↦ rw short (λ h. cc, λ h. (refl, refl))
  | inr enough ↦ rw enough (λ h. cc, λ h. cc)
]

pub round_view-Extends :
    (p : HttpParser) (bytes more : Bytes)
    → is_live p.state ≡ true
    → Extends p bytes more (round_view p bytes) (round_view p (bytes ++ more))
unfolding round_view
round_view-Extends p bytes more live = go p.state
  where
    go :
        (s : ParseState)
        → Extends p bytes more
            (elim s [
              | ParseState.body ↦ body_view p bytes
              | _ ↦ line_view p bytes (search_crlf bytes)
            ])
            (elim s [
              | ParseState.body ↦ body_view p (bytes ++ more)
              | _ ↦ line_view p (bytes ++ more) (search_crlf (bytes ++ more))
            ])
    go ParseState.body = body_view-Extends p bytes more
    go _ = line_view-Extends p bytes more (search_crlf bytes) live refl

-- More fuel than the bytes need changes nothing.
loop_view-fuel :
    (f g : ℕ) (p : HttpParser) (bytes : Bytes)
    → length bytes < f
    → length bytes < g
    → loop_view f p bytes ≡ loop_view g p bytes
unfolding loop_view
loop_view-fuel zero g p bytes h k = absurd (omega arith)
loop_view-fuel (suc f) zero p bytes h k = absurd (omega arith)
loop_view-fuel (suc f) (suc g) p bytes h k =
    go (round_view p bytes) (round_view-Consumes p bytes) (loop_view-fuel f g)
  where
    go :
        (s : Verdict × HttpParser × Bytes)
        → Consumes bytes s
        → ((q : HttpParser) (rest : Bytes)
            → length rest < f
            → length rest < g
            → loop_view f q rest ≡ loop_view g q rest)
        → after_view (loop_view f) s ≡ after_view (loop_view g) s
    go (some result, q, rest) c ih = refl
    go (none, q, rest) (_, fewer) ih =
        ih q rest (omega (arith, fewer refl)) (omega (arith, fewer refl))

-- The loop with the fuel that `parse` gives it.
abbrev whole : HttpParser → Bytes → Option ParseResult × HttpParser × Bytes
whole p bytes = loop_view (suc (length bytes)) p bytes

-- A loop that waits leaves a parser and bytes from which a loop over more bytes gives what the loop
-- from the start gives over all of them.
abbrev Resumes : HttpParser → Bytes → Bytes → Option ParseResult × HttpParser × Bytes → Type 0
Resumes p bytes more (result, p', rest) =
    result ≡ some ParseResult.need_more
    → (is_live p'.state ≡ true) × (whole p (bytes ++ more) ≡ whole p' (rest ++ more))

loop_view-Resumes :
    (f : ℕ) (p : HttpParser) (bytes more : Bytes)
    → is_live p.state ≡ true
    → Resumes p bytes more (loop_view f p bytes)
unfolding loop_view
loop_view-Resumes zero p bytes more live = λ h. absurd (cc h)
loop_view-Resumes (suc f) p bytes more live =
    go (round_view p bytes) (round_view p (bytes ++ more)) refl
      (round_view-Extends p bytes more live) (round_view-Consumes p bytes)
      (λ q rest. loop_view-Resumes f q rest more)
  where
    go :
        (s t : Verdict × HttpParser × Bytes)
        → round_view p (bytes ++ more) ≡ t
        → Extends p bytes more s t
        → Consumes bytes s
        → ((q : HttpParser) (rest : Bytes)
            → is_live q.state ≡ true
            → Resumes q rest more (loop_view f q rest))
        → Resumes p bytes more (after_view (loop_view f) s)
    go (some result, p', rest) t et (_, waits) c ih h =
        let (same_p, same_bytes) = waits h in
        (ap (λ (q : HttpParser). is_live q.state) same_p ∙ live, rw (same_p, same_bytes))
    go (none, p', rest) t et (goes, _) (_, fewer) ih h =
        let (live', e₀, e₁, e₂) = goes refl in
        let first : whole p (bytes ++ more) ≡ loop_view (length (bytes ++ more)) p' (rest ++ more) =
          ap (after_view (loop_view (length (bytes ++ more)))) (et ∙ (λ i. (e₀ i, e₁ i, e₂ i))) in
        let (live'', later) = ih p' rest live' h in
        (
          live'',
          first
              ∙ loop_view-fuel (length (bytes ++ more)) (suc (length (rest ++ more))) p'
                  (rest ++ more)
                  (omega (arith, fewer refl, length-append bytes more, length-append rest more))
                  (omega arith)
              ∙ later,
        )

pub parse_view-live :
    (p : HttpParser) (bytes : Bytes) → is_live p.state ≡ true → parse_view p bytes ≡ whole p bytes
unfolding parse_view
parse_view-live p bytes live = ground arith

pub parse_view-dead :
    (p : HttpParser)
    → is_live p.state ≡ false
    → (r : ParseResult) × ((bytes : Bytes) → parse_view p bytes ≡ (some r, p, bytes))
parse_view-dead p dead = go p.state refl
  where
    go :
        (s : ParseState)
        → p.state ≡ s
        → (r : ParseResult) × ((bytes : Bytes) → parse_view p bytes ≡ (some r, p, bytes))
    go ParseState.complete e = (ParseResult.complete, λ bytes. unfold parse_view in ground arith)
    go ParseState.error e = (p.error_result, λ bytes. unfold parse_view in ground arith)
    go _ e = absurd (ground arith)

parse_view-resumes :
    (p : HttpParser) (bytes more : Bytes)
    → (parse_view p bytes).0 ≡ some ParseResult.need_more
    → parse_view p (bytes ++ more)
      ≡ parse_view (parse_view p bytes).1 ((parse_view p bytes).2 ++ more)
parse_view-resumes p bytes more h = elim (Bool-cases (is_live p.state)) [
  | inl live ↦
      let (live', e) = loop_view-Resumes (suc (length bytes)) p bytes more live (
        ap (λ (s : Option ParseResult × HttpParser × Bytes). s.0)
          (sym (parse_view-live p bytes live))
        ∙ h) in
      rw (parse_view-live p bytes live, parse_view-live p (bytes ++ more) live)
        (e ∙ sym (parse_view-live _ _ live'))
  | inr dead ↦ let (r, at) = parse_view-dead p dead in rw (at bytes) refl
]

-- Bytes that arrive in pieces, in valid buffers with no open `prepare`: where `parse` asks for more, a
-- later call that finds further bytes behind those that were left returns what one call on all the
-- bytes returns, leaves the same parser, and leaves the same bytes.
pub parse-resumes :
    (p p' : HttpParser) (b b' later all : Buffer) (more : Bytes)
    → IsValid b
    → b.prepared_bytes ≡ 0
    → IsValid later
    → later.prepared_bytes ≡ 0
    → IsValid all
    → all.prepared_bytes ≡ 0
    → parse p b ≡ (ok ParseResult.need_more, p', b')
    → readable_view later ≡ readable_view b' ++ more
    → readable_view all ≡ readable_view b ++ more
    → ((parse p' later).0 ≡ (parse p all).0)
      × ((parse p' later).1 ≡ (parse p all).1)
      × (readable_view (parse p' later).2 ≡ readable_view (parse p all).2)
parse-resumes p p' b b' later all more v c vl cl va ca e el ea =
    let (r, re, b₁, pe, shown, _) = parse-Returns p b v c in
    let (r₂, re₂, b₂, pe₂, shown₂, _) = parse-Returns p' later vl cl in
    let (r₃, re₃, b₃, pe₃, shown₃, _) = parse-Returns p all va ca in
    let same_r : r ≡ ParseResult.need_more = cc (pe, e) in
    let same_p : (parse_view p (readable_view b)).1 ≡ p' = cc (pe, e) in
    let same_b : b₁ ≡ b' = cc (pe, e) in
    let rest : (parse_view p (readable_view b)).2 ≡ readable_view b' =
      sym shown.view ∙ ap readable_view same_b in
    let whole_view : parse_view p (readable_view b ++ more)
        ≡ parse_view p' (readable_view b' ++ more) =
      parse_view-resumes p (readable_view b) more (re ∙ ap some same_r)
      ∙ (λ i. parse_view (same_p i) (rest i ++ more)) in
    let views : parse_view p' (readable_view later) ≡ parse_view p (readable_view all) =
      ap (parse_view p') el ∙ sym whole_view ∙ sym (ap (parse_view p) ea) in
    let same_result : some r₂ ≡ some r₃ =
      sym re₂ ∙ ap (λ (s : Option ParseResult × HttpParser × Bytes). s.0) views ∙ re₃ in
    rw (pe₂, pe₃)
      (
        cc same_result,
        ap (λ (s : Option ParseResult × HttpParser × Bytes). s.1) views,
        shown₂.view
            ∙ ap (λ (s : Option ParseResult × HttpParser × Bytes). s.2) views
            ∙ sym shown₃.view,
      )
