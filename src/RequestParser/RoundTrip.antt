-- ===== src/RequestParser/RoundTrip.antt =====
-- The parser reads back every well-formed request header, whatever follows it.
use aite_cs.Prelude.{
  ◌+◌, ◌-◌, ◌*◌, List, [], ◌∷◌, ◌++◌, map, some, ok, ◌≡◌, ◌≢◌, refl, ◌∙◌, arith, append_assoc,
  append-nil, Bytes, All,
}
use aite_cs.RequestParser.Chars.{is_ctl}
use aite_cs.RequestParser.Machine.{
  method_start, method, uri, http_version_h, http_version_major_start, http_version_major,
  http_version_minor_start, http_version_minor, expecting_newline_1, header_line_start, header_name,
  header_lws, header_value, space_before_header_value, expecting_newline_2, expecting_newline_3,
  ParserRequest, consume, Header, is_true, blank,
}
use aite_cs.RequestParser.Parse.{parse_from, read_request, reset}
use aite_cs.RequestParser.Pieces.{
  parse_from-more, parse_from-method, parse_from-uri, parse_from-major, parse_from-minor,
  parse_from-name, parse_from-value, push_digit_fits, not_token-space, push_value-last,
  is_empty-last, parse_from-blanks, with_last,
}
use aite_cs.RequestParser.Wire.{
  Fold, WireHeader, Wire, IsWire, IsHeader, IsFold, IsNumber, IsToken, IsValue, NoLeadingSpace,
  IsUri, render, render_folds, fold_value, header_meaning, render_headers, render_version, meaning,
  value_after,
}

-- Every byte is consumed by a step that asks for more.
pub parse_from-method_start :
    (rest t : Bytes)
    → t ≢ []
    → IsToken t
    → parse_from method_start blank (t ++ b' ' ∷ rest)
      ≡ parse_from uri (record blank { method = t }) rest
parse_from-method_start rest [] ne h = absurd (ne refl)
parse_from-method_start rest (c ∷ t) ne (h, hs) =
    let first = record blank { method = c ∷ [] } in
    let all = record blank { method = c ∷ t } in
    parse_from-more method_start method blank first c _ (unfold consume in ground arith)
    ∙ parse_from-method (b' ' ∷ rest) t first hs
    ∙ parse_from-more method uri all all b' ' rest (unfold consume in refl)

pub parse_from-uri_end :
    (rest t : Bytes) (req : ParserRequest)
    → IsUri t
    → req.uri ≡ []
    → parse_from uri req (t ++ b' ' ∷ rest)
      ≡ parse_from http_version_h (record req { uri = t }) rest
parse_from-uri_end rest t req h e =
    parse_from-uri (b' ' ∷ rest) t req h
    ∙ rw e (
        parse_from-more uri http_version_h (record req { uri = t }) (record req { uri = t }) b' '
          rest (unfold consume in refl))

pub parse_from-http :
    (rest : Bytes) (req : ParserRequest)
    → parse_from http_version_h req (b'H' ∷ b'T' ∷ b'T' ∷ b'P' ∷ b'/' ∷ rest)
      ≡ parse_from http_version_major_start
          (record req { http_version_major = some 0; http_version_minor = some 0 })
          rest
unfolding parse_from consume
parse_from-http rest req = refl

parse_from-major_start :
    (rest ds : Bytes) (req : ParserRequest)
    → IsNumber ds
    → req.http_version_major ≡ some 0
    → parse_from http_version_major_start req (ds ++ b'.' ∷ rest)
      ≡ parse_from http_version_minor_start
          (record req { http_version_major = some (value_after 0 ds) })
          rest
parse_from-major_start rest [] req h e = absurd (h.0 refl)
parse_from-major_start rest (c ∷ ds) req h e =
    let n = 0 * 10 + c - b'0' in
    let first = record req { http_version_major = some n } in
    let all = record req { http_version_major = some (value_after 0 (c ∷ ds)) } in
    parse_from-more http_version_major_start http_version_major req first c _
      (unfold consume in ground (arith, push_digit_fits c 0 h.1.1))
    ∙ parse_from-major (b'.' ∷ rest) ds n first h.1.2 refl
    ∙ parse_from-more http_version_major http_version_minor_start all all b'.' rest
        (unfold consume in refl)

parse_from-minor_start :
    (rest ds : Bytes) (req : ParserRequest)
    → IsNumber ds
    → req.http_version_minor ≡ some 0
    → parse_from http_version_minor_start req (ds ++ b'\r' ∷ b'\n' ∷ rest)
      ≡ parse_from header_line_start
          (record req { http_version_minor = some (value_after 0 ds) })
          rest
parse_from-minor_start rest [] req h e = absurd (h.0 refl)
parse_from-minor_start rest (c ∷ ds) req h e =
    let n = 0 * 10 + c - b'0' in
    let first = record req { http_version_minor = some n } in
    let all = record req { http_version_minor = some (value_after 0 (c ∷ ds)) } in
    parse_from-more http_version_minor_start http_version_minor req first c _
      (unfold consume in ground (arith, push_digit_fits c 0 h.1.1))
    ∙ parse_from-minor (b'\r' ∷ b'\n' ∷ rest) ds n first h.1.2 refl
    ∙ parse_from-more http_version_minor expecting_newline_1 all all b'\r' _
        (unfold consume in refl)
    ∙ parse_from-more expecting_newline_1 header_line_start all all b'\n' rest
        (unfold consume in refl)

parse_from-name_start :
    (rest t : Bytes) (req : ParserRequest)
    → t ≢ []
    → IsToken t
    → parse_from header_line_start req (t ++ (b':' ∷ b' ' ∷ rest))
      ≡ parse_from header_value (with_last req req.headers (record { name = t; value = [] })) rest
parse_from-name_start rest [] req ne h = absurd (ne refl)
parse_from-name_start rest (c ∷ t) req ne (h, hs) =
    let first : Header = record { name = c ∷ []; value = [] } in
    let named : Header = record { name = c ∷ t; value = [] } in
    let all = with_last req req.headers named in
    parse_from-more header_line_start header_name req (with_last req req.headers first) c _
      (unfold consume in ground (arith, not_token-space c h))
    ∙ parse_from-name (b':' ∷ b' ' ∷ rest) t req req.headers first hs
    ∙ parse_from-more header_name space_before_header_value all all b':' _ (unfold consume in refl)
    ∙ parse_from-more space_before_header_value header_value all all b' ' rest
        (unfold consume in refl)

-- A continuation line, read in the state in which the last line has ended.
parse_from-text :
    (rest t : Bytes) (req : ParserRequest) (hs : List Header) (h : Header)
    → IsValue t
    → NoLeadingSpace t
    → parse_from header_lws (with_last req hs h) (t ++ (b'\r' ∷ b'\n' ∷ rest))
      ≡ parse_from header_line_start (with_last req hs (record h { value = h.value ++ t })) rest
parse_from-text rest [] req hs h _ _ = rw append-nil (
    parse_from-more header_lws expecting_newline_2 (with_last req hs h) (with_last req hs h) b'\r' _
      (unfold consume in refl)
    ∙ parse_from-more expecting_newline_2 header_line_start _ (with_last req hs h) b'\n' rest
        (unfold consume in refl))
parse_from-text rest (c ∷ t) req hs h (ok_c, ok_t) lead =
    let next = record h { value = h.value ++ c ∷ [] } in
    let all = with_last req hs (record next { value = next.value ++ t }) in
    parse_from-more header_lws header_value (with_last req hs h) (with_last req hs next) c _
      (unfold consume is_ctl in ground (arith, push_value-last hs h c))
    ∙ parse_from-value (b'\r' ∷ b'\n' ∷ rest) t req hs next ok_t
    ∙ parse_from-more header_value expecting_newline_2 all all b'\r' _ (unfold consume in refl)
    ∙ parse_from-more expecting_newline_2 header_line_start all all b'\n' rest
        (unfold consume in refl)
    ∙ rw append_assoc

parse_from-fold :
    (rest b t : Bytes) (req : ParserRequest) (hs : List Header) (h : Header)
    → IsFold (record { blanks = b; text = t })
    → parse_from header_line_start (with_last req hs h) (b ++ (t ++ (b'\r' ∷ b'\n' ∷ rest)))
      ≡ parse_from header_line_start (with_last req hs (record h { value = h.value ++ t })) rest
parse_from-fold rest [] t req hs h wf = absurd (wf.nonempty refl)
parse_from-fold rest (c ∷ b) t req hs h wf =
    let all = with_last req hs h in
    parse_from-more header_line_start header_lws all all c _
      (unfold consume in ground (arith, is_empty-last hs h, wf.blanks_blank.0))
    ∙ parse_from-blanks _ b all wf.blanks_blank.1
    ∙ parse_from-text rest t req hs h wf.text_plain wf.text_start

parse_from-folds :
    (fs : List Fold) (rest : Bytes) (req : ParserRequest) (hs : List Header) (h : Header)
    → All IsFold fs
    → parse_from header_line_start (with_last req hs h) (render_folds fs rest)
      ≡ parse_from header_line_start
          (with_last req hs (record h { value = h.value ++ fold_value fs }))
          rest
parse_from-folds [] rest req hs h _ = rw append-nil
parse_from-folds (f ∷ fs) rest req hs h (wf, wfs) =
    parse_from-fold (render_folds fs rest) f.blanks f.text req hs h wf
    ∙ parse_from-folds fs rest req hs (record h { value = h.value ++ f.text }) wfs
    ∙ rw append_assoc

parse_from-header :
    (rest : Bytes) (req : ParserRequest) (h : WireHeader)
    → IsHeader h
    → parse_from header_line_start req
        (h.name ++ (b':' ∷ b' ' ∷ (h.first ++ (b'\r' ∷ b'\n' ∷ render_folds h.folds rest))))
      ≡ parse_from header_line_start (with_last req req.headers (header_meaning h)) rest
parse_from-header rest req h wf =
    let named : Header = record { name = h.name; value = [] } in
    let lined : Header = record { name = h.name; value = h.first } in
    let all = with_last req req.headers lined in
    parse_from-name_start _ h.name req wf.nonempty wf.name_token
    ∙ parse_from-value _ h.first req req.headers named wf.first_plain
    ∙ parse_from-more header_value expecting_newline_2 all all b'\r' _ (unfold consume in refl)
    ∙ parse_from-more expecting_newline_2 header_line_start all all b'\n' _ (unfold consume in refl)
    ∙ parse_from-folds h.folds rest req req.headers lined wf.folds_wf

parse_from-headers :
    (hs : List WireHeader) (rest : Bytes) (req : ParserRequest)
    → All IsHeader hs
    → parse_from header_line_start req (render_headers hs rest)
      ≡ ok (record {
        result = is_true;
        state_ = expecting_newline_3;
        req = record req { headers = req.headers ++ map header_meaning hs };
        rest = rest;
      })
parse_from-headers [] rest req h = rw append-nil (unfold parse_from consume in refl)
parse_from-headers (h ∷ hs) rest req (wf, wfs) =
    parse_from-header (render_headers hs rest) req h wf
    ∙ parse_from-headers hs rest (with_last req req.headers (header_meaning h)) wfs
    ∙ rw append_assoc

-- Everything behind the method.
pub parse_from-target :
    (w : Wire) (rest : Bytes)
    → IsWire w
    → parse_from uri
        (record blank { method = w.method })
        (w.uri ++ (b' ' ∷ render_version w (render_headers w.headers rest)))
      ≡ ok (record { result = is_true; state_ = expecting_newline_3; req = meaning w; rest = rest })
parse_from-target w rest wf =
    parse_from-uri_end _ w.uri _ wf.uri_plain refl
    ∙ parse_from-http _ _
    ∙ parse_from-major_start _ w.major _ wf.major_number refl
    ∙ parse_from-minor_start _ w.minor _ wf.minor_number refl
    ∙ parse_from-headers w.headers rest _ wf.headers_wf

-- From the reset state every well-formed request header is accepted, folded headers included: the
-- result is `true`, the request is the one that was written, and the returned `begin` stands directly
-- behind the blank line, whatever follows it.
pub read_request-render :
    (w : Wire) (rest : Bytes)
    → IsWire w
    → read_request reset (render w rest)
      ≡ ok (record { result = is_true; state_ = expecting_newline_3; req = meaning w; rest = rest })
unfolding read_request
read_request-render w rest wf =
    parse_from-method_start _ w.method wf.method_nonempty wf.method_token
    ∙ parse_from-target w rest wf
