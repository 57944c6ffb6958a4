-- ===== src/RequestParser/Resume.antt =====
-- A request header that arrives in several reads: `parse` keeps its state between calls, and starts
-- each call with an empty request.
use aite_cs.Prelude.{
  ℕ, ◌+◌, ◌-◌, ◌*◌, true, false, [], ◌∷◌, ◌++◌, some, ok, err, overflow, empty_container,
  uninitialised, ◌≡◌, ◌≢◌, ◌⊎◌, refl, arith, inl, inr, Bytes, All, All-append, append-nil,
  append_assoc, Bool-cases, ltb, ◌∙◌,
}
use aite_cs.RequestParser.Machine.{
  State, method_start, method, uri, http_version_major_start, http_version_major,
  http_version_minor_start, http_version_minor, header_name, header_lws, header_value,
  expecting_newline_3, ParserRequest, not_token, ctl, digit, consume, push_digit, push_name,
  push_value, int_max, is_true, indeterminate, blank, more,
}
use aite_cs.RequestParser.Parse.{parse_from, read_request, reset}
use aite_cs.RequestParser.Chars.{is_digit}
use aite_cs.RequestParser.Pieces.{parse_from-method, parse_from-more}
use aite_cs.RequestParser.RoundTrip.{
  parse_from-method_start, parse_from-uri_end, parse_from-http, parse_from-target,
  read_request-render,
}
use aite_cs.RequestParser.Wire.{Wire, IsWire, IsToken, IsUri, Fits, render, meaning}

-- The states that append to the last header, and those that add a digit.
abbrev pub InHeader : State → Type 0
InHeader header_name = Unit
InHeader header_lws = Unit
InHeader header_value = Unit
InHeader _ = ⊥

abbrev pub InVersion : State → Type 0
InVersion http_version_major_start = Unit
InVersion http_version_major = Unit
InVersion http_version_minor_start = Unit
InVersion http_version_minor = Unit
InVersion _ = ⊥

plain_char :
    (c : ℕ)
    → not_token c ≡ false
    → (c ≢ b' ') × (c ≢ b':') × (c ≢ b'\r') × (c ≢ b'\t') × (ctl c ≡ false)
unfolding not_token
plain_char c h = ground arith

-- When a read ends inside a header, the call of `parse` for the next read appends to the last header
-- of an empty list at the next plain character.
pub parse-resume_header :
    (s : State) (c : ℕ) (cs : Bytes)
    → InHeader s
    → not_token c ≡ false
    → read_request s (c ∷ cs) ≡ err empty_container
unfolding read_request parse_from consume push_name push_value
parse-resume_header header_name c cs h plain = ground (arith, plain_char c plain)
parse-resume_header header_lws c cs h plain = ground (arith, plain_char c plain)
parse-resume_header header_value c cs h plain = ground (arith, plain_char c plain)
parse-resume_header _ c cs h plain = elim h [ ]

-- When a read ends inside the version, the call of `parse` for the next read computes with a version
-- number that is not set at the next digit.
pub parse-resume_version :
    (s : State) (c : ℕ) (cs : Bytes)
    → InVersion s
    → digit c ≡ true
    → read_request s (c ∷ cs) ≡ err uninitialised
unfolding read_request parse_from consume push_digit
parse-resume_version http_version_major_start c cs h d = unfold is_digit in ground arith
parse-resume_version http_version_major c cs h d = unfold is_digit in ground arith
parse-resume_version http_version_minor_start c cs h d = unfold is_digit in ground arith
parse-resume_version http_version_minor c cs h d = unfold is_digit in ground arith
parse-resume_version _ c cs h d = elim h [ ]

space :
    (req : ParserRequest) (cs : Bytes) → parse_from method req (b' ' ∷ cs) ≡ parse_from uri req cs
unfolding parse_from consume
space req cs = refl

-- When a read ends inside the method, behind `m`, and the next read brings the rest `w` of the
-- request, then the loop asks for more, and in the second read reads what `w` alone means: `m` is lost. In
-- one read the method is `m` followed by that of `w`.
pub read_request-resume_method :
    (m : Bytes) (w : Wire) (rest : Bytes)
    → m ≢ []
    → IsToken m
    → IsWire w
    → (read_request reset m
        ≡ ok (record {
          result = indeterminate;
          state_ = method;
          req = record blank { method = m };
          rest = [];
        }))
      × (read_request method (render w rest)
          ≡ ok (record {
            result = is_true;
            state_ = expecting_newline_3;
            req = meaning w;
            rest = rest;
          }))
      × (read_request reset (m ++ render w rest)
          ≡ ok (record {
            result = is_true;
            state_ = expecting_newline_3;
            req = record (meaning w) { method = m ++ w.method };
            rest = rest;
          }))
unfolding read_request
read_request-resume_method [] w rest ne t wf = absurd (ne refl)
read_request-resume_method (c ∷ m) w rest ne (ok_c, ok_m) wf =
    let first = record blank { method = c ∷ [] } in
    let begin = λ (cs : Bytes).
      parse_from-more method_start method blank first c cs (unfold consume in ground arith) in
    (
      rw append-nil at
          (begin (m ++ []) ∙ parse_from-method [] m first ok_m ∙ unfold parse_from in refl),
      parse_from-method _ w.method blank wf.method_token
          ∙ space (record blank { method = w.method }) _
          ∙ parse_from-target w rest wf,
      rw append_assoc at (
          read_request-render (record w { method = (c ∷ m) ++ w.method }) rest
            (record {
              method_nonempty = λ e. cc;
              method_token = All-append _ (c ∷ m) w.method (ok_c, ok_m) wf.method_token;
              uri_plain = wf.uri_plain;
              major_number = wf.major_number;
              minor_number = wf.minor_number;
              headers_wf = wf.headers_wf;
            })),
    )

parse_from-overflow :
    (ds rest : Bytes) (s : State) (n : ℕ) (req : ParserRequest)
    → (s ≡ http_version_major_start) ⊎ (s ≡ http_version_major)
    → req.http_version_major ≡ some n
    → All (λ d. digit d ≡ true) ds
    → ¬ (Fits n ds)
    → parse_from s req (ds ++ rest) ≡ err overflow
parse_from-overflow [] rest s n req hs e h over = absurd (over tt)
parse_from-overflow (c ∷ ds) rest s n req hs e (h, hds) over =
    elim (Bool-cases (ltb int_max (n * 10 + c))) [
      | inl big ↦ elim hs [
        | inl at_start ↦ rw at_start (unfold parse_from consume push_digit in ground arith)
        | inr in_major ↦ rw in_major (unfold parse_from consume push_digit is_digit in ground arith)
      ]
      | inr fits ↦
          let next = record req { http_version_major = some (n * 10 + c - b'0') } in
          let later =
            parse_from-overflow ds rest http_version_major (n * 10 + c - b'0') next (inr refl) refl
              hds (λ f. over (h, ground arith, f)) in
          let step : consume s req c ≡ more http_version_major next = elim hs [
            | inl at_start ↦ rw at_start (unfold consume push_digit in ground arith)
            | inr in_major ↦ rw in_major (unfold consume push_digit is_digit in ground arith)
          ] in
          parse_from-more s http_version_major req next c (ds ++ rest) step ∙ later
    ]

-- A request line whose major version number does not fit an `int` runs into a signed overflow.
pub parse-overflow :
    (m u ds rest : Bytes)
    → m ≢ []
    → IsToken m
    → IsUri u
    → All (λ d. digit d ≡ true) ds
    → ¬ (Fits 0 ds)
    → read_request reset
        (m ++ (b' ' ∷ (u ++ (b' ' ∷ b'H' ∷ b'T' ∷ b'T' ∷ b'P' ∷ b'/' ∷ (ds ++ rest)))))
      ≡ err overflow
unfolding read_request
parse-overflow m u ds rest ne tm tu hds over =
    parse_from-method_start _ m ne tm
    ∙ parse_from-uri_end _ u _ tu refl
    ∙ parse_from-http _ _
    ∙ parse_from-overflow ds rest http_version_major_start 0 _ (inl refl) refl hds over
