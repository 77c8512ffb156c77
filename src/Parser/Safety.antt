-- ===== src/Parser/Safety.antt =====
-- What every request that src/http/http_parser.cpp completes has.
use pulsegate.Base.{
  ℕ, zero, suc, ◌≤◌, ◌<◌, ◌≡◌, refl, ap, ◌∙◌, ◌⊎◌, inl, inr, true, false, Option, none, some, List,
  [], ◌∷◌, Bytes, codes, length, take, ltb, ◌==◌, ok, arith, Bool-cases, Option-cases, length-take,
  add64, size_mod, parse_number, subst,
}
use pulsegate.Headers.{contains, values}
use pulsegate.Request.{HttpRequest}
use pulsegate.Parser.{
  parse, HttpParserLimits, HttpParser, ParseState, ParseResult, Verdict, init, fail,
  pending_too_large, line_too_large, take_line, after_request_line, after_headers, after_header,
  parse_request_line, parse_header, finish_headers, content_length, is_request_line,
}
use pulsegate.Buffer.{Buffer, readable_view, search_crlf}
use pulsegate.Buffer.Inv.{IsValid}
use pulsegate.Parser.Loop.{parse-Returns}
use pulsegate.Parser.Incremental.{is_live, round_view-Extends, parse_view-dead, parse_view-live}
use pulsegate.Parser.View.{line_view, body_view, round_view, after_view, loop_view, parse_view}

-- The request is framed: HTTP/1.1 has a host, no transfer coding is left to decode, and the length of
-- the body is the one that the headers give, or zero without one.
pub record IsFramed (limit : ℕ) (r : HttpRequest) (n : ℕ) : Type 0 where
  pub host : r.version_minor ≡ 1 → contains (codes "host") r.headers ≡ true
  pub plain : contains (codes "transfer-encoding") r.headers ≡ false
  pub declared :
      ((values (codes "content-length") r.headers ≡ []) × (n ≡ 0))
      ⊎ ((v : Bytes) × (values (codes "content-length") r.headers ≡ v ∷ [])
          × (parse_number size_mod 10 v ≡ some n))
  pub within : n ≤ limit

-- What holds in each state, with the parser's limits.
abbrev pub InState : ParseState → HttpParser → Type 0
InState ParseState.request_line p =
    (p.request.body ≡ []) × (p.header_count ≡ 0) × (p.limits.max_header_count < size_mod)
InState ParseState.headers p =
    (p.request.body ≡ [])
    × (p.header_count ≤ p.limits.max_header_count)
    × (p.limits.max_header_count < size_mod)
    × (p.request.version_major ≡ 1)
InState ParseState.body p =
    (p.request.body ≡ [])
    × (p.header_count ≤ p.limits.max_header_count)
    × IsFramed p.limits.max_body_bytes p.request p.expected_body_bytes
InState ParseState.complete p =
    (p.header_count ≤ p.limits.max_header_count)
    × IsFramed p.limits.max_body_bytes p.request (length p.request.body)
InState ParseState.error p = Unit {0}

abbrev pub IsSound : HttpParser → Type 0
IsSound p = InState p.state p

-- What a length that was accepted says of the values of the header.
abbrev pub Declares : List Bytes → ℕ → Type 0
Declares vs n =
    ((vs ≡ []) × (n ≡ 0)) ⊎ ((v : Bytes) × (vs ≡ v ∷ []) × (parse_number size_mod 10 v ≡ some n))

-- The parser `p'` differs from `p` in the expected length alone.
abbrev OnlyLength : HttpParser → HttpParser → Type 0
OnlyLength p p' =
    (p'.request ≡ p.request) × (p'.header_count ≡ p.header_count) × (p'.limits ≡ p.limits)

content_length-Declares :
    (vs : List Bytes) (p p' : HttpParser)
    → content_length vs p ≡ (ParseResult.complete, p')
    → OnlyLength p p'
      × Declares vs p'.expected_body_bytes
      × (p'.expected_body_bytes ≤ p.limits.max_body_bytes)
unfolding content_length
content_length-Declares [] p p' e =
    let same : record p { expected_body_bytes = 0 } ≡ p' =
      ap (λ (r : ParseResult × HttpParser). r.1) e in
    rw (← same) ((refl, refl, refl), inl (refl, refl), omega arith)
content_length-Declares (v ∷ []) p p' e = elim (Option-cases (parse_number size_mod 10 v)) [
  | inl bad ↦ absurd (ground (arith, bad))
  | inr (n, good) ↦ elim (Bool-cases (ltb p.limits.max_body_bytes n)) [
    | inl large ↦ absurd (ground (arith, good, large))
    | inr small ↦
        let same : record p { expected_body_bytes = n } ≡ p' = ground (arith, good, small, e) in
        rw (← same) ((refl, refl, refl), inr (v, refl, good), ground arith)
  ]
]
content_length-Declares (v ∷ (w ∷ more)) p p' e = absurd (cc e)

finish_headers-IsFramed :
    (p p' : HttpParser)
    → finish_headers p ≡ (ParseResult.complete, p')
    → p.request.version_major ≡ 1
    → OnlyLength p p' × IsFramed p.limits.max_body_bytes p.request p'.expected_body_bytes
unfolding finish_headers
finish_headers-IsFramed p p' e major =
    let (only, declares, within) =
      content_length-Declares (values (codes "content-length") p.request.headers) p p'
        (ground arith) in
    (
      only,
      record {
        host = λ m. ground arith;
        plain = ground arith;
        declared = declares;
        within = within;
      },
    )

parse_request_line-keeps :
    (line : Bytes) (p p' : HttpParser)
    → parse_request_line line p ≡ (ParseResult.complete, p')
    → (p'.request.body ≡ p.request.body)
      × (p'.request.version_major ≡ 1)
      × (p'.header_count ≡ p.header_count)
      × (p'.limits ≡ p.limits)
unfolding parse_request_line
parse_request_line-keeps line p p' e = ground (arith, e)

parse_header-keeps :
    (line : Bytes) (p p' : HttpParser)
    → parse_header line p ≡ (ParseResult.complete, p')
    → p.header_count ≤ p.limits.max_header_count
    → p.limits.max_header_count < size_mod
    → (p'.request.body ≡ p.request.body)
      × (p'.request.version_major ≡ p.request.version_major)
      × (p'.header_count ≤ p'.limits.max_header_count)
      × (p'.limits ≡ p.limits)
      × (p'.state ≡ p.state)
unfolding parse_header
parse_header-keeps line p p' e h k = ground (arith, e)

after_request_line-IsSound :
    (n : ℕ) (p : HttpParser) (r : ParseResult × HttpParser)
    → InState ParseState.request_line p
    → ((p' : HttpParser)
        → r ≡ (ParseResult.complete, p')
        → (p'.request.body ≡ p.request.body)
          × (p'.request.version_major ≡ 1)
          × (p'.header_count ≡ p.header_count)
          × (p'.limits ≡ p.limits))
    → IsSound (after_request_line n r).1
unfolding after_request_line fail
after_request_line-IsSound n p (ParseResult.complete, q) s keeps =
    let (body, major, count, limits) = keeps q refl in
    (body ∙ s.0, omega (arith, count, s.1), rw limits s.2, major)
after_request_line-IsSound n p (result, q) s keeps = tt

after_headers-IsSound :
    (p : HttpParser) (r : ParseResult × HttpParser)
    → InState ParseState.headers p
    → ((p' : HttpParser)
        → r ≡ (ParseResult.complete, p')
        → OnlyLength p p' × IsFramed p.limits.max_body_bytes p.request p'.expected_body_bytes)
    → IsSound (after_headers r).1
unfolding after_headers fail
after_headers-IsSound p (ParseResult.complete, q) s framed =
    let ((request, count, limits), framing) = framed q refl in
    let moved : IsFramed q.limits.max_body_bytes q.request q.expected_body_bytes =
      rw (limits, request) framing in
    let counted : q.header_count ≤ q.limits.max_header_count = rw (limits, count) s.1 in
    let zero_body : length q.request.body ≡ 0 = rw request (ap length s.0) in
    elim (Bool-cases (q.expected_body_bytes == 0)) [
      | inl nothing ↦
          let same : q.expected_body_bytes ≡ length q.request.body =
            ground (arith, zero_body, nothing) in
          rw nothing (counted, subst (IsFramed q.limits.max_body_bytes q.request) same moved)
      | inr something ↦
          rw something (ap (λ (r : HttpRequest). r.body) request ∙ s.0, counted, moved)
    ]
after_headers-IsSound p (result, q) s framed = tt

after_header-IsSound :
    (p : HttpParser) (r : ParseResult × HttpParser)
    → InState ParseState.headers p
    → p.state ≡ ParseState.headers
    → ((p' : HttpParser)
        → r ≡ (ParseResult.complete, p')
        → (p'.request.body ≡ p.request.body)
          × (p'.request.version_major ≡ p.request.version_major)
          × (p'.header_count ≤ p'.limits.max_header_count)
          × (p'.limits ≡ p.limits)
          × (p'.state ≡ p.state))
    → IsSound (after_header r).1
unfolding after_header fail
after_header-IsSound p (ParseResult.complete, q) s st keeps =
    let (body, major, count, limits, state) = keeps q refl in
    rw (state, st) (body ∙ s.0, count, rw limits s.2, major ∙ s.3)
after_header-IsSound p (result, q) s st keeps = tt

take_line-IsSound :
    (line : Bytes) (p : HttpParser)
    → (p.state ≡ ParseState.request_line) ⊎ (p.state ≡ ParseState.headers)
    → IsSound p
    → IsSound (take_line line p).1
unfolding take_line
take_line-IsSound line p (inl st) s =
    let here : InState ParseState.request_line p = subst (λ t. InState t p) st s in
    let first : is_request_line p.state ≡ true = ap is_request_line st in
    rw first (
      after_request_line-IsSound (add64 (length line) 2) p (parse_request_line line p) here
        (parse_request_line-keeps line p))
take_line-IsSound line p (inr st) s =
    let here : InState ParseState.headers p = subst (λ t. InState t p) st s in
    let later : is_request_line p.state ≡ false = ap is_request_line st in
    let counted : HttpParser = record p {
      header_bytes = add64 p.header_bytes (add64 (length line) 2);
    } in
    elim (Bool-cases (length line == 0)) [
      | inl blank ↦
          rw (later, blank)
            (after_headers-IsSound counted (finish_headers counted) here
              (λ p' e. finish_headers-IsFramed counted p' e here.3))
      | inr header ↦
          rw (later, header)
            (after_header-IsSound counted (parse_header line counted) here st
              (λ p' e. parse_header-keeps line counted p' e here.1 here.2))
    ]

line_view-IsSound :
    (p : HttpParser) (bytes : Bytes) (o : Option ℕ)
    → (p.state ≡ ParseState.request_line) ⊎ (p.state ≡ ParseState.headers)
    → IsSound p
    → IsSound (line_view p bytes o).1
unfolding line_view fail
line_view-IsSound p bytes none st s = elim (Bool-cases (pending_too_large (length bytes) p)) [
  | inl large ↦ rw large tt
  | inr small ↦ rw small s
]
line_view-IsSound p bytes (some i) st s = elim (Bool-cases (line_too_large i p)) [
  | inl large ↦ rw large tt
  | inr small ↦ rw small (take_line-IsSound (take i bytes) p st s)
]

body_view-IsSound :
    (p : HttpParser) (bytes : Bytes)
    → InState ParseState.body p
    → p.state ≡ ParseState.body
    → IsSound (body_view p bytes).1
unfolding body_view
body_view-IsSound p bytes s st = elim (Bool-cases (ltb (length bytes) p.expected_body_bytes)) [
  | inl short ↦ rw (short, st) s
  | inr enough ↦
      let whole : p.expected_body_bytes ≡ length (take p.expected_body_bytes bytes) =
        ground (arith, length-take p.expected_body_bytes bytes, enough) in
      let f : IsFramed p.limits.max_body_bytes p.request
          (length (take p.expected_body_bytes bytes)) =
        subst (IsFramed p.limits.max_body_bytes p.request) whole s.2 in
      rw enough
        (s.1, record { host = f.host; plain = f.plain; declared = f.declared; within = f.within })
]

round_view-IsSound :
    (p : HttpParser) (bytes : Bytes)
    → is_live p.state ≡ true
    → IsSound p
    → IsSound (round_view p bytes).1
unfolding round_view
round_view-IsSound p bytes live s = go p.state refl
  where
    chosen : ParseState → Verdict × HttpParser × Bytes
    chosen t = elim t [
      | ParseState.body ↦ body_view p bytes
      | _ ↦ line_view p bytes (search_crlf bytes)
    ]

    go : (t : ParseState) → p.state ≡ t → IsSound (chosen t).1
    go ParseState.body e = body_view-IsSound p bytes (subst (λ t. InState t p) e s) e
    go ParseState.request_line e = line_view-IsSound p bytes (search_crlf bytes) (inl e) s
    go ParseState.headers e = line_view-IsSound p bytes (search_crlf bytes) (inr e) s
    go ParseState.complete e = absurd (ground (arith, e, live))
    go ParseState.error e = absurd (ground (arith, e, live))

after_view-IsSound :
    (next : HttpParser → Bytes → Option ParseResult × HttpParser × Bytes)
    (r : Verdict × HttpParser × Bytes)
    → IsSound r.1
    → (r.0 ≡ none → IsSound (next r.1 r.2).1)
    → IsSound (after_view next r).1
unfolding after_view
after_view-IsSound next (some result, p, bytes) s more = s
after_view-IsSound next (none, p, bytes) s more = more refl

loop_view-IsSound :
    (fuel : ℕ) (p : HttpParser) (bytes : Bytes)
    → is_live p.state ≡ true
    → IsSound p
    → IsSound (loop_view fuel p bytes).1
unfolding loop_view
loop_view-IsSound zero p bytes live s = s
loop_view-IsSound (suc fuel) p bytes live s =
    after_view-IsSound (loop_view fuel) (round_view p bytes) (round_view-IsSound p bytes live s)
      (λ goes.
        loop_view-IsSound fuel (round_view p bytes).1 (round_view p bytes).2
          ((round_view-Extends p bytes [] live).0 goes).0 (round_view-IsSound p bytes live s))

parse_view-IsSound : (p : HttpParser) (bytes : Bytes) → IsSound p → IsSound (parse_view p bytes).1
parse_view-IsSound p bytes s = elim (Bool-cases (is_live p.state)) [
  | inl live ↦
      rw (parse_view-live p bytes live) (loop_view-IsSound (suc (length bytes)) p bytes live s)
  | inr dead ↦ let (r, at) = parse_view-dead p dead in rw (at bytes) s
]

-- On a valid buffer with no open `prepare`, `parse` keeps the parser sound. A sound parser is within its
-- limit on the number of headers until it fails, and has no body before it has read one. From the end
-- of the headers on its request is framed: with version 1.1 it has a host, it has no transfer coding,
-- and the length of its body is within the limit and is the one that the single `content-length` value
-- gives, or zero where there is no such value.
pub parse-IsSound :
    (p : HttpParser) (b : Buffer)
    → IsValid b
    → b.prepared_bytes ≡ 0
    → IsSound p
    → IsSound (parse p b).1
parse-IsSound p b v closed s =
    let (r, re, b', pe, shown, _) = parse-Returns p b v closed in
    rw pe (parse_view-IsSound p (readable_view b) s)

pub init-IsSound : (l : HttpParserLimits) (p : HttpParser) → init l ≡ ok p → IsSound p
unfolding init
init-IsSound l p h = ground (arith, h)
