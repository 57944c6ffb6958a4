-- ===== src/RequestParser/Sound.antt =====
-- Whatever the parser accepts is a well-formed request header: each piece that it reads is split off.
use aite_cs.Prelude.{
  ℕ, false, [], ◌∷◌, ◌++◌, some, ok, ◌≡◌, ◌≢◌, refl, sym, ap, ◌∙◌, arith, append-nil, Bytes,
  Bool-cases, inl, inr,
}
use aite_cs.RequestParser.Machine.{
  method_start, method, uri, http_version_h, http_version_major_start, http_version_major,
  http_version_minor_start, http_version_minor, expecting_newline_1, header_line_start,
  ParserRequest, not_token, ctl, consume, is_true, blank,
}
use aite_cs.RequestParser.Parse.{parse_from, read_request, Parsed, reset}
use aite_cs.RequestParser.Takes.{
  Accepts, not_accepts_nil, Accepts-Piece, Accepts-expect, Accepts-http, Takes-method, Takes-uri,
}
use aite_cs.RequestParser.Digits.{
  Accepts-Number, takes-major, takes-minor, Starts-major, Starts-minor, with_major, with_minor,
}
use aite_cs.RequestParser.Block.{Block, Accepts-Block}
use aite_cs.RequestParser.Wire.{
  Wire, IsWire, IsNumber, IsToken, IsUri, render, render_headers, meaning, value_after,
}

-- What an accepted call of `parse` has read, as a request in its written form.
pub record Spelled (input : Bytes) (p : Parsed) : Type 0 where
  pub wire : Wire
  pub wf : IsWire wire
  pub splits : input ≡ render wire p.rest
  pub outcome : p.req ≡ meaning wire

-- The version, up to the end of the request line.
record VersionText (input : Bytes) (req : ParserRequest) (p : Parsed) : Type 0 where
  major : Bytes
  minor : Bytes
  rest : Bytes
  splits :
      input
      ≡ b'H' ∷ b'T' ∷ b'T' ∷ b'P' ∷ b'/' ∷ (major ++ (b'.' ∷ (minor ++ (b'\r' ∷ b'\n' ∷ rest))))
  major_number : IsNumber major
  minor_number : IsNumber minor
  accepted :
      Accepts header_line_start
        (with_minor (with_major req (value_after 0 major)) (value_after 0 minor))
        rest
        p

join_version :
    (input r3 maj r4 min r5 rest : Bytes)
    → input ≡ b'H' ∷ b'T' ∷ b'T' ∷ b'P' ∷ b'/' ∷ r3
    → r3 ≡ maj ++ b'.' ∷ r4
    → r4 ≡ min ++ b'\r' ∷ r5
    → r5 ≡ b'\n' ∷ rest
    → input ≡ b'H' ∷ b'T' ∷ b'T' ∷ b'P' ∷ b'/' ∷ (maj ++ (b'.' ∷ (min ++ (b'\r' ∷ b'\n' ∷ rest))))
join_version input r3 maj r4 min r5 rest e1 e2 e3 e4 = rw (e1, e2, e3, e4)

Accepts-minor :
    (input : Bytes) (req : ParserRequest) (p : Parsed)
    → Accepts http_version_minor_start (with_minor req 0) input p
    → (minor rest : Bytes) × (input ≡ minor ++ b'\r' ∷ b'\n' ∷ rest)
      × IsNumber minor
      × Accepts header_line_start (with_minor req (value_after 0 minor)) rest p
unfolding consume
Accepts-minor input req p a =
    let (min, ne) =
      Accepts-Number http_version_minor_start http_version_minor expecting_newline_1 b'\r'
        (with_minor req) (Starts-minor req) (takes-minor req) input p a in
    let done = with_minor req (value_after 0 min.piece) in
    let nl =
      Accepts-expect expecting_newline_1 header_line_start b'\n' done done (λ d. ground arith)
        min.rest p min.accepted in
    (
      min.piece,
      nl.rest,
      min.splits ∙ ap (λ r. min.piece ++ b'\r' ∷ r) nl.splits,
      (ne, min.holds),
      nl.accepted,
    )

Accepts-version :
    (input : Bytes) (req : ParserRequest) (p : Parsed)
    → Accepts http_version_h req input p
    → VersionText input req p
Accepts-version input req p a =
    let (r3, http, a3) = Accepts-http input req p a in
    let zeroed = record req { http_version_major = some 0; http_version_minor = some 0 } in
    let (maj, maj_ne) =
      Accepts-Number http_version_major_start http_version_major http_version_minor_start b'.'
        (with_major zeroed) (Starts-major zeroed) (takes-major zeroed) r3 p a3 in
    let (min, rest, splits, number, accepted) =
      Accepts-minor maj.rest (with_major zeroed (value_after 0 maj.piece)) p maj.accepted in
    record {
      major = maj.piece;
      minor = min;
      rest = rest;
      splits =
          http
          ∙ ap (λ r. b'H' ∷ b'T' ∷ b'T' ∷ b'P' ∷ b'/' ∷ r)
              (maj.splits ∙ ap (λ r. maj.piece ++ b'.' ∷ r) splits);
      major_number = (maj_ne, maj.holds);
      minor_number = number;
      accepted = accepted;
    }

-- The method behind its first byte, and the target.
record LineText (input : Bytes) (req : ParserRequest) (p : Parsed) : Type 0 where
  name : Bytes
  target : Bytes
  rest : Bytes
  splits : input ≡ name ++ (b' ' ∷ (target ++ (b' ' ∷ rest)))
  name_token : IsToken name
  target_plain : IsUri target
  accepted :
      Accepts http_version_h
        (record req { method = req.method ++ name; uri = req.uri ++ target })
        rest
        p

Accepts-line :
    (input : Bytes) (req : ParserRequest) (p : Parsed)
    → Accepts method req input p
    → LineText input req p
Accepts-line input req p a =
    let m =
      Accepts-Piece method uri b' ' (λ d. not_token d ≡ false)
        (λ t. record req { method = req.method ++ t }) (Takes-method req) input [] p
        (rw append-nil a) in
    let r1 = record req { method = req.method ++ m.piece } in
    let u =
      Accepts-Piece uri http_version_h b' ' (λ d. (d ≢ b' ') × (ctl d ≡ false))
        (λ t. record r1 { uri = r1.uri ++ t }) (Takes-uri r1) m.rest [] p
        (rw append-nil m.accepted) in
    record {
      name = m.piece;
      target = u.piece;
      rest = u.rest;
      splits = m.splits ∙ ap (λ r. m.piece ++ b' ' ∷ r) u.splits;
      name_token = m.holds;
      target_plain = u.holds;
      accepted = u.accepted;
    }

assemble :
    (c : ℕ) (cs : Bytes) (p : Parsed)
    → not_token c ≡ false
    → (line : LineText cs (record blank { method = c ∷ [] }) p)
      (v : VersionText line.rest (record blank { method = c ∷ line.name; uri = line.target }) p)
    → Block v.rest
        (record {
          method = c ∷ line.name;
          uri = line.target;
          http_version_major = some (value_after 0 v.major);
          http_version_minor = some (value_after 0 v.minor);
          headers = [];
          body = [];
        })
        p
    → Spelled (c ∷ cs) p
assemble c cs p good line v b = record {
  wire = record {
    method = c ∷ line.name;
    uri = line.target;
    major = v.major;
    minor = v.minor;
    headers = b.later;
  };
  wf = record {
    method_nonempty = λ e. cc;
    method_token = (good, line.name_token);
    uri_plain = line.target_plain;
    major_number = v.major_number;
    minor_number = v.minor_number;
    headers_wf = b.later_wf;
  };
  splits =
      ap (λ r. c ∷ r) line.splits
      ∙ ap (λ r. c ∷ (line.name ++ (b' ' ∷ (line.target ++ (b' ' ∷ r))))) v.splits
      ∙ ap
          (λ r.
            c
            ∷ (line.name
                ++ (b' '
                    ∷ (line.target
                        ++ (b' '
                            ∷ b'H'
                            ∷ b'T'
                            ∷ b'T'
                            ∷ b'P'
                            ∷ b'/'
                            ∷ (v.major ++ (b'.' ∷ (v.minor ++ (b'\r' ∷ b'\n' ∷ r)))))))))
          (b.splits ∙ ap (λ q. render_headers b.later q.rest) (sym b.outcome));
  outcome = ap (λ q. q.req) b.outcome;
}

-- Whenever the loop of `parse` in the reset state comes to `true`, the bytes that it consumed are a
-- well-formed request header and a blank line, the request is what they mean, and the
-- `begin` stands directly behind them.
pub parse-Spelled :
    (input : Bytes) (p : Parsed)
    → read_request reset input ≡ ok p
    → p.result ≡ is_true
    → Spelled input p
unfolding read_request
parse-Spelled [] p e y = absurd (not_accepts_nil method_start blank p (e, y))
parse-Spelled (c ∷ cs) p e y = elim (Bool-cases (not_token c)) [
  | inl bad ↦ absurd (unfold parse_from consume in ground arith)
  | inr good ↦
      let line =
        Accepts-line cs (record blank { method = c ∷ [] }) p
          (unfold parse_from consume in ground arith, y) in
      let v =
        Accepts-version line.rest (record blank { method = c ∷ line.name; uri = line.target }) p
          line.accepted in
      assemble c cs p good line v (Accepts-Block v.rest _ p refl v.accepted)
]
