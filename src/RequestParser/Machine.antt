-- ===== src/RequestParser/Machine.antt =====
-- `request_parser::consume`: the states, the request that is being read, and one step.
use aite_cs.Prelude.{
  ℕ, ◌+◌, ◌-◌, ◌*◌, ◌^◌, Bool, true, false, not, ◌&&◌, ◌||◌, List, [], ◌∷◌, ◌++◌, Option, none,
  some, Bytes, to_int, ltb, ◌==◌, if◌then◌else◌, Result, ok, err, ◌>>=◌, empty_container,
  uninitialised, overflow,
}
use aite_cs.RequestParser.Chars.{is_char, is_ctl, is_tspecial, is_digit}

pub data State : Type 0 where
  method_start method uri : State
  http_version_h http_version_t_1 http_version_t_2 http_version_p http_version_slash : State
  http_version_major_start http_version_major http_version_minor_start http_version_minor : State
  expecting_newline_1 header_line_start header_lws header_name : State
  space_before_header_value header_value expecting_newline_2 expecting_newline_3 : State

pub record Header : Type 0 where
  pub name : Bytes
  pub value : Bytes

-- The two numbers are `none` until they are first assigned. `body` is never written.
pub record ParserRequest : Type 0 where
  pub method : Bytes
  pub uri : Bytes
  pub http_version_major : Option ℕ
  pub http_version_minor : Option ℕ
  pub headers : List Header
  pub body : Bytes

-- A fresh `parser_request req_`.
abbrev pub blank : ParserRequest
blank = record {
  method = [];
  uri = [];
  http_version_major = none;
  http_version_minor = none;
  headers = [];
  body = [];
}

-- `boost::tribool`.
pub data Tribool : Type 0 where
  is_true is_false indeterminate : Tribool

-- What one call of `consume` leaves behind.
pub record Consumed : Type 0 where
  pub result : Tribool
  pub state_ : State
  pub req : ParserRequest

abbrev pub int_max : ℕ
int_max = 2 ^ 31 - 1

-- `n * 10 + input - '0'`, evaluated from the left in `int`.
unfoldable pub push_digit : Option ℕ → ℕ → Result ℕ
push_digit none c = err uninitialised
push_digit (some n) c = if ltb int_max (n * 10 + c) then err overflow else ok (n * 10 + c - b'0')

-- Appends to the last header; `back` of an empty vector is undefined.
unfoldable pub push_name : List Header → ℕ → Result (List Header)
push_name [] c = err empty_container
push_name (h ∷ []) c = ok (record h { name = h.name ++ c ∷ [] } ∷ [])
push_name (h ∷ hs) c = do hs' ← push_name hs c; ok (h ∷ hs')

unfoldable pub push_value : List Header → ℕ → Result (List Header)
push_value [] c = err empty_container
push_value (h ∷ []) c = ok (record h { value = h.value ++ c ∷ [] } ∷ [])
push_value (h ∷ hs) c = do hs' ← push_value hs c; ok (h ∷ hs')

-- `!is_char(input) || is_ctl(input) || is_tspecial(input)`
unfoldable pub not_token : ℕ → Bool
unfolding is_char is_ctl is_tspecial
not_token c = not (is_char (to_int c)) || is_ctl (to_int c) || is_tspecial (to_int c)

abbrev pub ctl : ℕ → Bool
ctl c = is_ctl (to_int c)

abbrev pub digit : ℕ → Bool
digit c = is_digit (to_int c)

abbrev pub is_empty : List Header → Bool
is_empty [] = true
is_empty (_ ∷ _) = false

abbrev pub more : State → ParserRequest → Result Consumed
more s req = ok (record { result = indeterminate; state_ = s; req = req })

-- The three outcomes of a call: refused, with the state as it was; another state; finished.
abbrev pub refuse : State → ParserRequest → Result Consumed
refuse s req = ok (record { result = is_false; state_ = s; req = req })

abbrev expect : ℕ → ℕ → State → State → ParserRequest → Result Consumed
expect c wanted s next req = if c == wanted then more next req else refuse s req

add_name : ParserRequest → ℕ → State → Result Consumed
add_name req c s = do hs ← push_name req.headers c; more s (record req { headers = hs })

add_value : ParserRequest → ℕ → State → Result Consumed
add_value req c s = do hs ← push_value req.headers c; more s (record req { headers = hs })

add_major : ParserRequest → ℕ → State → Result Consumed
add_major req c s = do
  n ← push_digit req.http_version_major c
  more s (record req { http_version_major = some n })

add_minor : ParserRequest → ℕ → State → Result Consumed
add_minor req c s = do
  n ← push_digit req.http_version_minor c
  more s (record req { http_version_minor = some n })

abbrev pub new_header : ParserRequest → ℕ → ParserRequest
new_header req c = record req { headers = req.headers ++ record { name = c ∷ []; value = [] } ∷ [] }

-- `request_parser::consume`, on the parser's state.
unfoldable pub consume : State → ParserRequest → ℕ → Result Consumed
unfolding add_name add_value add_major add_minor
consume method_start req c =
    if not_token c
    then refuse method_start req
    else more method (record req { method = req.method ++ c ∷ [] })
consume method req c =
    if c == b' '
    then more uri req
    else if not_token c
    then refuse method req
    else more method (record req { method = req.method ++ c ∷ [] })
consume uri req c =
    if c == b' '
    then more http_version_h req
    else if ctl c
    then refuse uri req
    else more uri (record req { uri = req.uri ++ c ∷ [] })
consume http_version_h req c = expect c b'H' http_version_h http_version_t_1 req
consume http_version_t_1 req c = expect c b'T' http_version_t_1 http_version_t_2 req
consume http_version_t_2 req c = expect c b'T' http_version_t_2 http_version_p req
consume http_version_p req c = expect c b'P' http_version_p http_version_slash req
consume http_version_slash req c =
    if c == b'/'
    then more http_version_major_start
        (record req { http_version_major = some 0; http_version_minor = some 0 })
    else refuse http_version_slash req
consume http_version_major_start req c =
    if digit c then add_major req c http_version_major else refuse http_version_major_start req
consume http_version_major req c =
    if c == b'.'
    then more http_version_minor_start req
    else if digit c
    then add_major req c http_version_major
    else refuse http_version_major req
consume http_version_minor_start req c =
    if digit c then add_minor req c http_version_minor else refuse http_version_minor_start req
consume http_version_minor req c =
    if c == b'\r'
    then more expecting_newline_1 req
    else if digit c
    then add_minor req c http_version_minor
    else refuse http_version_minor req
consume expecting_newline_1 req c = expect c b'\n' expecting_newline_1 header_line_start req
consume header_line_start req c =
    if c == b'\r'
    then more expecting_newline_3 req
    else if not (is_empty req.headers) && (c == b' ' || c == b'\t')
    then more header_lws req
    else if not_token c
    then refuse header_line_start req
    else more header_name (new_header req c)
consume header_lws req c =
    if c == b'\r'
    then more expecting_newline_2 req
    else if c == b' ' || c == b'\t'
    then more header_lws req
    else if ctl c
    then refuse header_lws req
    else add_value req c header_value
consume header_name req c =
    if c == b':'
    then more space_before_header_value req
    else if not_token c
    then refuse header_name req
    else add_name req c header_name
consume space_before_header_value req c = expect c b' ' space_before_header_value header_value req
consume header_value req c =
    if c == b'\r'
    then more expecting_newline_2 req
    else if ctl c
    then refuse header_value req
    else add_value req c header_value
consume expecting_newline_2 req c = expect c b'\n' expecting_newline_2 header_line_start req
consume expecting_newline_3 req c = ok (record {
  result = if c == b'\n' then is_true else is_false;
  state_ = expecting_newline_3;
  req = req;
})
