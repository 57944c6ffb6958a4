-- ===== src/RequestParser/Pieces.antt =====
-- The parser over one piece of a request header, with any bytes behind it.
use aite_cs.Prelude.{
  ℕ, ◌+◌, ◌-◌, ◌*◌, ◌≤◌, true, false, List, [], ◌∷◌, ◌++◌, some, ok, ◌≡◌, ◌≢◌, refl, ◌∙◌, arith,
  append_assoc, append-nil, Bytes, All,
}
use aite_cs.RequestParser.Chars.{is_ctl, is_digit}
use aite_cs.RequestParser.Machine.{
  State, method, uri, http_version_major, http_version_minor, header_name, header_lws, header_value,
  is_empty, ParserRequest, not_token, digit, consume, more, push_digit, push_name, push_value,
  int_max, Header,
}
use aite_cs.RequestParser.Parse.{parse_from}
use aite_cs.RequestParser.Wire.{value_after, Fits, IsBlank, IsToken, IsUri, IsValue}

pub not_token-space :
    (c : ℕ) → not_token c ≡ false → (c ≢ b' ') × (c ≢ b':') × (c ≢ b'\r') × (c ≢ b'\t')
unfolding not_token
not_token-space c h = ground arith

-- A step that asks for more.
pub parse_from-more :
    (s t : State) (req next : ParserRequest) (c : ℕ) (cs : Bytes)
    → consume s req c ≡ more t next
    → parse_from s req (c ∷ cs) ≡ parse_from t next cs
unfolding parse_from
parse_from-more s t req next c cs h = rw h

pub parse_from-method :
    (rest t : Bytes) (req : ParserRequest)
    → IsToken t
    → parse_from method req (t ++ rest)
      ≡ parse_from method (record req { method = req.method ++ t }) rest
parse_from-method rest [] req h = rw append-nil
parse_from-method rest (c ∷ t) req (h, hs) =
    let next = record req { method = req.method ++ c ∷ [] } in
    parse_from-more method method req next c (t ++ rest)
      (unfold consume in ground (arith, not_token-space c h))
    ∙ parse_from-method rest t next hs
    ∙ rw append_assoc

pub parse_from-uri :
    (rest t : Bytes) (req : ParserRequest)
    → IsUri t
    → parse_from uri req (t ++ rest) ≡ parse_from uri (record req { uri = req.uri ++ t }) rest
parse_from-uri rest [] req h = rw append-nil
parse_from-uri rest (c ∷ t) req (h, hs) =
    let next = record req { uri = req.uri ++ c ∷ [] } in
    parse_from-more uri uri req next c (t ++ rest) (unfold consume in ground arith)
    ∙ parse_from-uri rest t next hs
    ∙ rw append_assoc

digit_not : (c : ℕ) → digit c ≡ true → (c ≢ b'.') × (c ≢ b'\r')
unfolding is_digit
digit_not c h = ground arith

pub push_digit_fits :
    (c n : ℕ) → n * 10 + c ≤ int_max → push_digit (some n) c ≡ ok (n * 10 + c - b'0')
unfolding push_digit
push_digit_fits c n h = ground arith

pub parse_from-major :
    (rest ds : Bytes) (n : ℕ) (req : ParserRequest)
    → Fits n ds
    → req.http_version_major ≡ some n
    → parse_from http_version_major req (ds ++ rest)
      ≡ parse_from http_version_major
          (record req { http_version_major = some (value_after n ds) })
          rest
parse_from-major rest [] n req _ e = ground arith
parse_from-major rest (c ∷ ds) n req (h, fit, fits) e =
    let next = record req { http_version_major = some (n * 10 + c - b'0') } in
    parse_from-more http_version_major http_version_major req next c (ds ++ rest)
      (unfold consume in ground (arith, digit_not c h, push_digit_fits c n fit))
    ∙ parse_from-major rest ds (n * 10 + c - b'0') next fits refl

pub parse_from-minor :
    (rest ds : Bytes) (n : ℕ) (req : ParserRequest)
    → Fits n ds
    → req.http_version_minor ≡ some n
    → parse_from http_version_minor req (ds ++ rest)
      ≡ parse_from http_version_minor
          (record req { http_version_minor = some (value_after n ds) })
          rest
parse_from-minor rest [] n req _ e = ground arith
parse_from-minor rest (c ∷ ds) n req (h, fit, fits) e =
    let next = record req { http_version_minor = some (n * 10 + c - b'0') } in
    parse_from-more http_version_minor http_version_minor req next c (ds ++ rest)
      (unfold consume in ground (arith, digit_not c h, push_digit_fits c n fit))
    ∙ parse_from-minor rest ds (n * 10 + c - b'0') next fits refl

pub push_name-last :
    (hs : List Header) (h : Header) (c : ℕ)
    → push_name (hs ++ h ∷ []) c ≡ ok (hs ++ record h { name = h.name ++ c ∷ [] } ∷ [])
unfolding push_name
push_name-last [] h c = refl
push_name-last (x ∷ []) h c = refl
push_name-last (x ∷ y ∷ hs) h c = rw (push_name-last (y ∷ hs) h c)

pub push_value-last :
    (hs : List Header) (h : Header) (c : ℕ)
    → push_value (hs ++ h ∷ []) c ≡ ok (hs ++ record h { value = h.value ++ c ∷ [] } ∷ [])
unfolding push_value
push_value-last [] h c = refl
push_value-last (x ∷ []) h c = refl
push_value-last (x ∷ y ∷ hs) h c = rw (push_value-last (y ∷ hs) h c)

-- The request with one more header at the end.
abbrev pub with_last : ParserRequest → List Header → Header → ParserRequest
with_last req hs h = record req { headers = hs ++ h ∷ [] }

pub parse_from-name :
    (rest t : Bytes) (req : ParserRequest) (hs : List Header) (h : Header)
    → IsToken t
    → parse_from header_name (with_last req hs h) (t ++ rest)
      ≡ parse_from header_name (with_last req hs (record h { name = h.name ++ t })) rest
parse_from-name rest [] req hs h _ = rw append-nil
parse_from-name rest (c ∷ t) req hs h (ok_c, ok_t) =
    let next = record h { name = h.name ++ c ∷ [] } in
    parse_from-more header_name header_name (with_last req hs h) (with_last req hs next) c
      (t ++ rest) (unfold consume in ground (arith, not_token-space c ok_c, push_name-last hs h c))
    ∙ parse_from-name rest t req hs next ok_t
    ∙ rw append_assoc

pub parse_from-value :
    (rest t : Bytes) (req : ParserRequest) (hs : List Header) (h : Header)
    → IsValue t
    → parse_from header_value (with_last req hs h) (t ++ rest)
      ≡ parse_from header_value (with_last req hs (record h { value = h.value ++ t })) rest
parse_from-value rest [] req hs h _ = rw append-nil
parse_from-value rest (c ∷ t) req hs h (ok_c, ok_t) =
    let next = record h { value = h.value ++ c ∷ [] } in
    parse_from-more header_value header_value (with_last req hs h) (with_last req hs next) c
      (t ++ rest) (unfold consume is_ctl in ground (arith, push_value-last hs h c))
    ∙ parse_from-value rest t req hs next ok_t
    ∙ rw append_assoc

pub parse_from-blanks :
    (rest b : Bytes) (req : ParserRequest)
    → All IsBlank b
    → parse_from header_lws req (b ++ rest) ≡ parse_from header_lws req rest
parse_from-blanks rest [] req _ = refl
parse_from-blanks rest (c ∷ b) req (blank, blanks) =
    parse_from-more header_lws header_lws req req c (b ++ rest) (unfold consume in ground arith)
    ∙ parse_from-blanks rest b req blanks

pub is_empty-last : (hs : List Header) (h : Header) → is_empty (hs ++ h ∷ []) ≡ false
is_empty-last [] h = refl
is_empty-last (x ∷ hs) h = refl
