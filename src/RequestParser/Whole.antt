-- ===== src/RequestParser/Whole.antt =====
-- `request_parser::parse` with its call of `translate`: what becomes of a request as it is written.
use aite_cs.Prelude.{
  false, ℕ, ◌+◌, ◌*◌, ◌≤◌, [], ◌++◌, map, none, some, Bytes, ltb, ok, err, ◌>>=◌, uncaught, ◌≡◌,
  ◌≢◌, refl, ◌∙◌, arith,
}
use aite_cs.Http.{Http}
use aite_cs.RequestParser.Machine.{
  is_true, indeterminate, method, expecting_newline_3, blank, int_max,
}
use aite_cs.RequestParser.Parse.{Parsed, reset, read_request}
use aite_cs.RequestParser.Resume.{read_request-resume_method}
use aite_cs.RequestParser.RoundTrip.{read_request-render}
use aite_cs.RequestParser.Translate.{version_number, set_fields, translate, translated, parse}
use aite_cs.RequestParser.Wire.{Wire, IsWire, IsToken, render, meaning, header_meaning, value_after}

-- `major * 10 + minor`, as the request line has them.
abbrev pub version_of : Wire → ℕ
version_of w = value_after 0 w.major * 10 + value_after 0 w.minor

module _ (http : Http) where
  open http use {Request, set_method, set_version, set_target}

  -- The message for a request with its method set.
  abbrev pub message_of : Request → Wire → Request
  message_of named w =
      set_fields http (set_target (set_version named (version_of w)) w.uri)
        (map header_meaning w.headers)

  translate-meaning :
      (req named : Request) (w : Wire)
      → set_method req w.method ≡ some named
      → version_of w ≤ int_max
      → translate http req (meaning w) ≡ ok (message_of named w)
  unfolding translate version_number
  translate-meaning req named w verb fits =
      let small : ltb int_max (version_of w) ≡ false = ground arith in rw (verb, small) refl

  parse-accepted :
      (req : Request) (input : Bytes) (parsed : Parsed)
      → read_request reset input ≡ ok parsed
      → parsed.result ≡ is_true
      → parse http req reset input
        ≡ (translate http req parsed.req >>= λ message. ok (parsed, message))
  unfolding parse translated
  parse-accepted req input parsed e true_result = rw (e, true_result) refl

  -- From the reset state every well-formed request header with a known method and a version number that is
  -- an `int` is accepted, folded headers included: the result is `true`, the message has the method, the version, the target
  -- and the fields that were written, and the returned `begin` stands directly behind the blank line, whatever
  -- follows it.
  pub parse-render :
      (req named : Request) (w : Wire) (rest : Bytes)
      → IsWire w
      → set_method req w.method ≡ some named
      → version_of w ≤ int_max
      → parse http req reset (render w rest)
        ≡ ok (
          record { result = is_true; state_ = expecting_newline_3; req = meaning w; rest = rest },
          message_of named w,
        )
  parse-render req named w rest wf verb fits =
      parse-accepted req (render w rest) _ (read_request-render w rest wf) refl
      ∙ rw (translate-meaning req named w verb fits) refl

  -- A request that is accepted when it comes in one read ends the program when its method is split over two
  -- reads and the second part is no method: the first call of `parse` asks for more, and the second has lost the
  -- first part and throws.
  pub parse-resume_method :
      (req named : Request) (m : Bytes) (w : Wire) (rest : Bytes)
      → m ≢ []
      → IsToken m
      → IsWire w
      → set_method req (m ++ w.method) ≡ some named
      → set_method req w.method ≡ none
      → version_of w ≤ int_max
      → (parse http req reset (m ++ render w rest)
          ≡ ok (
            record {
              result = is_true;
              state_ = expecting_newline_3;
              req = record (meaning w) { method = m ++ w.method };
              rest = rest;
            },
            message_of named w,
          ))
        × (parse http req reset m
            ≡ ok (
              record {
                result = indeterminate;
                state_ = method;
                req = record blank { method = m };
                rest = [];
              },
              req,
            ))
        × (parse http req method (render w rest) ≡ err uncaught)
  unfolding parse translated translate
  parse-resume_method req named m w rest ne t wf whole part fits =
      let (asks, later, once) = read_request-resume_method m w rest ne t wf in
      (
        parse-accepted req (m ++ render w rest) _ once refl
            ∙ rw (translate-meaning req named (record w { method = m ++ w.method }) whole fits)
                refl,
        rw asks refl,
        rw (later, part) refl,
      )
