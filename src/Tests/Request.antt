-- ===== src/Tests/Request.antt =====
-- The request parser on a request like those of tests/request_parser, in one read and in several.
use aite_cs.Prelude.{
  equal, uncaught, false, true, false, [], ◌∷◌, ◌++◌, ok, err, overflow, empty_container, ◌≡◌, refl,
  arith, inl, Bytes, All, codes,
}
use aite_cs.RequestParser.Chars.{is_char, is_ctl, is_tspecial, is_digit}
use aite_cs.RequestParser.Machine.{
  method, header_value, expecting_newline_3, blank, is_true, indeterminate, not_token, digit,
  consume, push_digit,
}
use aite_cs.RequestParser.Parse.{Parsed, read_request, parse_from, reset}
use aite_cs.RequestParser.Wire.{Wire, IsWire, IsToken, IsUri, Fits, render, meaning}
use aite_cs.RequestParser.RoundTrip.{read_request-render}
use aite_cs.RequestParser.Sound.{parse-Spelled}
use aite_cs.RequestParser.Sound.{Spelled}
use aite_cs.RequestParser.Faults.{parse-err}
use aite_cs.RequestParser.Resume.{parse-resume_header, parse-overflow}
use aite_cs.RequestParser.Translate.{parse}
use aite_cs.RequestParser.Whole.{message_of, parse-render, parse-resume_method}
use aite_cs.Tests.Messages.{Letter, plain}

crlf : Bytes
crlf = b'\r' ∷ b'\n' ∷ []

-- A GET request with a folded header.
abbrev get_request : Wire
get_request = record {
  method = codes "GET";
  uri = codes "/a?b";
  major = codes "1";
  minor = codes "1";
  headers =
      record {
        name = codes "Host";
        first = codes "a.b";
        folds = record { blanks = codes "  "; text = codes "c" } ∷ [];
      }
      ∷ [];
}

get_request-IsWire : IsWire get_request
unfolding not_token is_char is_ctl is_tspecial is_digit
get_request-IsWire = record {
  method_nonempty = λ e. cc;
  method_token = (refl, (refl, (refl, tt)));
  uri_plain = (
    (λ e. omega (arith, e), refl),
    (
      (λ e. omega (arith, e), refl),
      ((λ e. omega (arith, e), refl), ((λ e. omega (arith, e), refl), tt)),
    ),
  );
  major_number = (λ e. cc, (refl, omega arith, tt));
  minor_number = (λ e. cc, (refl, omega arith, tt));
  headers_wf = (
    record {
      nonempty = λ e. cc;
      name_token = (refl, (refl, (refl, (refl, tt))));
      first_plain = (refl, (refl, (refl, tt)));
      folds_wf = (
        record {
          nonempty = λ e. cc;
          blanks_blank = (inl refl, (inl refl, tt));
          text_plain = (refl, tt);
          text_start = λ e. omega (arith, e);
        },
        tt,
      );
    },
    tt,
  );
}

abbrev named_get : Letter
named_get = record { post = false; address = []; fields = []; text = [] }

parse-render_example :
    parse plain plain.new_request reset (render get_request (codes "body"))
    ≡ ok (
      record {
        result = is_true;
        state_ = expecting_newline_3;
        req = meaning get_request;
        rest = codes "body";
      },
      message_of plain named_get get_request,
    )
unfolding equal
parse-render_example =
    parse-render plain plain.new_request named_get get_request (codes "body") get_request-IsWire
      refl (omega arith)

abbrev accepted : Parsed
accepted = record {
  result = is_true;
  state_ = expecting_newline_3;
  req = meaning get_request;
  rest = codes "body";
}

parse-Spelled_example : Spelled (render get_request (codes "body")) accepted
parse-Spelled_example =
    parse-Spelled (render get_request (codes "body")) accepted
      (read_request-render get_request (codes "body") get_request-IsWire) refl

overlong : Bytes
overlong = codes "A / HTTP/9999999999.1"

overlong_faults : read_request reset (codes "A / HTTP/9999999999.1") ≡ err overflow
unfolding read_request parse_from consume push_digit not_token is_char is_ctl is_tspecial is_digit
overlong_faults = refl

parse-err_example : overflow ≡ overflow
parse-err_example = parse-err (codes "A / HTTP/9999999999.1") overflow overlong_faults

s_plain : not_token b's' ≡ false
unfolding not_token is_char is_ctl is_tspecial
s_plain = refl

parse-resume_header_example :
    read_request header_value (codes "st: b\r\n\r\n") ≡ err empty_container
parse-resume_header_example =
    parse-resume_header header_value b's' (codes "t: b\r\n\r\n") tt s_plain

IsToken-x : IsToken (codes "X")
unfolding not_token is_char is_ctl is_tspecial
IsToken-x = (refl, tt)

ge-IsToken : IsToken (codes "GE")
unfolding not_token is_char is_ctl is_tspecial
ge-IsToken = (refl, (refl, tt))

-- The request behind the first two bytes of its method.
abbrev cut_request : Wire
cut_request = record get_request { method = codes "T" }

cut_request-IsWire : IsWire cut_request
unfolding not_token is_char is_ctl is_tspecial
cut_request-IsWire =
    let whole = get_request-IsWire in
    record {
      method_nonempty = λ e. cc;
      method_token = (refl, tt);
      uri_plain = whole.uri_plain;
      major_number = whole.major_number;
      minor_number = whole.minor_number;
      headers_wf = whole.headers_wf;
    }

parse-resume_method_example :
    (parse plain plain.new_request reset (codes "GE" ++ render cut_request [])
      ≡ ok (
        record {
          result = is_true;
          state_ = expecting_newline_3;
          req = record (meaning cut_request) { method = codes "GET" };
          rest = [];
        },
        message_of plain named_get cut_request,
      ))
    × (parse plain plain.new_request reset (codes "GE")
        ≡ ok (
          record {
            result = indeterminate;
            state_ = method;
            req = record blank { method = codes "GE" };
            rest = [];
          },
          plain.new_request,
        ))
    × (parse plain plain.new_request method (render cut_request []) ≡ err uncaught)
unfolding equal
parse-resume_method_example =
    parse-resume_method plain plain.new_request named_get (codes "GE") cut_request [] (λ e. cc)
      ge-IsToken cut_request-IsWire refl refl (omega arith)

slash-IsUri : IsUri (codes "/")
unfolding is_ctl
slash-IsUri = ((λ e. omega (arith, e), refl), tt)

nines_digits : All (λ d. digit d ≡ true) (codes "9999999999")
unfolding is_digit
nines_digits = (refl, (refl, (refl, (refl, (refl, (refl, (refl, (refl, (refl, (refl, tt))))))))))

nines_overflow : ¬ (Fits 0 (codes "9999999999"))
nines_overflow h = omega (arith, h.2.2.2.2.2.2.2.2.2.1)

parse-overflow_example : read_request reset (codes "X / HTTP/9999999999.1") ≡ err overflow
parse-overflow_example =
    parse-overflow (codes "X") (codes "/") (codes "9999999999") (codes ".1") (λ e. cc) IsToken-x
      slash-IsUri nines_digits nines_overflow
