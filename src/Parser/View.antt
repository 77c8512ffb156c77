-- ===== src/Parser/View.antt =====
-- `parse` of src/http/http_parser.cpp over the readable bytes alone: the buffer's indices do not matter.
use pulsegate.Base.{
  ℕ, zero, suc, ◌+◌, ◌≤◌, ◌≡◌, refl, ap, sym, inl, inr, Option, none, some, ◌∷◌, Bytes, length,
  take, drop, ltb, if◌then◌else◌, add64, sub64, add64_exact, sub64_exact, Result, ok, arith,
  Bool-cases, length-append, take-take_le,
}
use pulsegate.Buffer.{Buffer, readable_bytes, readable_view, search_crlf, find_crlf}
use pulsegate.Buffer.Inv.{IsValid, readable_bytes_exact, length-readable_view}
use pulsegate.Buffer.Stream.{Shows, consume-Shows, take_string-Shows}
use pulsegate.Buffer.Search.{search_crlf-FirstCrlf}
use pulsegate.Parser.{
  HttpParser, ParseState, ParseResult, Verdict, fail, pending_too_large, line_too_large, take_line,
  line_case, line_round, body_round, round,
}
use mathlib.Core.Option

-- A round over the bytes: the verdict, the parser, and the bytes that are left.
unfoldable pub line_view : HttpParser → Bytes → Option ℕ → Verdict × HttpParser × Bytes
line_view p bytes none =
    if pending_too_large (length bytes) p
    then (some ParseResult.header_too_large, fail ParseResult.header_too_large p, bytes)
    else (some ParseResult.need_more, p, bytes)
line_view p bytes (some i) =
    if line_too_large i p
    then (some ParseResult.header_too_large, fail ParseResult.header_too_large p, bytes)
    else let (verdict, p') = take_line (take i bytes) p in (verdict, p', drop (i + 2) bytes)

unfoldable pub body_view : HttpParser → Bytes → Verdict × HttpParser × Bytes
body_view p bytes =
    if ltb (length bytes) p.expected_body_bytes then (some ParseResult.need_more, p, bytes) else (
      some ParseResult.complete,
      record p {
        request = record (p.request) { body = take p.expected_body_bytes bytes };
        state = ParseState.complete;
      },
      drop p.expected_body_bytes bytes,
    )

unfoldable pub round_view : HttpParser → Bytes → Verdict × HttpParser × Bytes
round_view p bytes = elim p.state [
  | ParseState.body ↦ body_view p bytes
  | _ ↦ line_view p bytes (search_crlf bytes)
]

unfoldable pub after_view :
    (HttpParser → Bytes → Option ParseResult × HttpParser × Bytes)
    → Verdict × HttpParser × Bytes
    → Option ParseResult × HttpParser × Bytes
after_view next (some result, p, bytes) = (some result, p, bytes)
after_view next (none, p, bytes) = next p bytes

unfoldable pub loop_view : ℕ → HttpParser → Bytes → Option ParseResult × HttpParser × Bytes
unfolding after_view
loop_view zero p bytes = (none, p, bytes)
loop_view (suc fuel) p bytes = after_view (loop_view fuel) (round_view p bytes)

unfoldable pub parse_view : HttpParser → Bytes → Option ParseResult × HttpParser × Bytes
parse_view p bytes = elim p.state [
  | ParseState.complete ↦ (some ParseResult.complete, p, bytes)
  | ParseState.error ↦ (some p.error_result, p, bytes)
  | _ ↦ loop_view (suc (length bytes)) p bytes
]

-- A round of the code and a round over the bytes agree.
abbrev pub Agrees {ℓ} :
    {A : Type ℓ} → Buffer → Result A × HttpParser × Buffer → A × HttpParser × Bytes → Type ℓ
Agrees b r s = (b' : Buffer) × (r ≡ (ok s.0, s.1, b')) × Shows b s.2 b'

module _ (p : HttpParser) (b : Buffer) (v : IsValid b) (closed : b.prepared_bytes ≡ 0) where
  same_b : Shows b (readable_view b) b
  same_b = record { valid = v; unprepared = closed; view = refl; maximum = refl }

  len : length (readable_view b) ≡ readable_bytes b
  len = length-readable_view b v

  body_round-Agrees : Agrees b (body_round p b) (body_view p (readable_view b))
  unfolding body_round body_view
  body_round-Agrees = elim (Bool-cases (ltb (readable_bytes b) p.expected_body_bytes)) [
    | inl short ↦ rw (len, short) (b, refl, same_b)
    | inr enough ↦
        let (b', e, shown) = take_string-Shows b v closed p.expected_body_bytes (ground arith) in
        rw (len, enough, e) (b', refl, shown)
  ]

  pending-Agrees :
      search_crlf (readable_view b) ≡ none
      → Agrees b (line_case p b none) (line_view p (readable_view b) none)
  unfolding line_case line_view
  pending-Agrees e = elim (Bool-cases (pending_too_large (readable_bytes b) p)) [
    | inl large ↦ rw (len, large) (b, refl, same_b)
    | inr small ↦ rw (len, small) (b, refl, same_b)
  ]

  module _ (i : ℕ) (e : search_crlf (readable_view b) ≡ some i) where
    terminated : i + 2 ≤ readable_bytes b
    terminated =
        let (l, r, split, at, _) = search_crlf-FirstCrlf (readable_view b) i e in
        omega (arith, len, ap length split, length-append l (13 ∷ 10 ∷ r), at)

    exact_bytes : sub64 (b.read_index + i) b.read_index ≡ i
    exact_bytes = omega (
      arith,
      sub64_exact (b.read_index + i) b.read_index,
      readable_bytes_exact b v,
      terminated,
      v.inside,
      v.bounded,
      v.is_size,
    )

    exact_line : take i (drop b.read_index b.storage) ≡ take i (readable_view b)
    unfolding readable_view
    exact_line = sym (
        take-take_le i (readable_bytes b) (drop b.read_index b.storage) (omega (arith, terminated)))

    exact_end : add64 i 2 ≡ i + 2
    exact_end =
        add64_exact i 2
          (omega (arith, readable_bytes_exact b v, terminated, v.inside, v.bounded, v.is_size))

    terminated-Agrees :
        Agrees b (line_case p b (some (b.read_index + i))) (line_view p (readable_view b) (some i))
    unfolding line_case line_view
    terminated-Agrees =
        let (b', taken, shown) = consume-Shows b v closed (i + 2) terminated in
        elim (Bool-cases (line_too_large i p)) [
          | inl large ↦ rw (exact_bytes, large) (b, refl, same_b)
          | inr small ↦ rw (exact_bytes, small, exact_line, exact_end, taken) (b', refl, shown)
        ]

  line_round-Agrees :
      Agrees b (line_round p b) (line_view p (readable_view b) (search_crlf (readable_view b)))
  unfolding line_round find_crlf
  line_round-Agrees = go (search_crlf (readable_view b)) refl
    where
      go :
          (o : Option ℕ)
          → search_crlf (readable_view b) ≡ o
          → Agrees b
              (line_case p b (Option.map (λ k. b.read_index + k) o))
              (line_view p (readable_view b) o)
      go none e = pending-Agrees e
      go (some i) e = terminated-Agrees i e

  pub round-Agrees : Agrees b (round p b) (round_view p (readable_view b))
  unfolding round round_view
  round-Agrees = go p.state
    where
      go :
          (s : ParseState)
          → Agrees {A = Verdict} b
              (elim s [ ParseState.body ↦ body_round p b | _ ↦ line_round p b ])
              (elim s [
                | ParseState.body ↦ body_view p (readable_view b)
                | _ ↦ line_view p (readable_view b) (search_crlf (readable_view b))
              ])
      go ParseState.body = body_round-Agrees
      go _ = line_round-Agrees
