-- ===== src/Tests/Exchanges.antt =====
-- A session that serves a request with a body of three bytes, and the theorems on sessions.
use aite_cs.Prelude.{
  inr, ◌+◌, ℕ, suc, [], ◌∷◌, ◌++◌, some, codes, equal, ok, err, ◌>>=◌, uninitialised, ◌≡◌, refl,
  arith,
}
use aite_cs.Handlers.{echo}
use aite_cs.Handlers.Dispatch.{handle_request}
use aite_cs.Handlers.Meme.Actions.{Handled, answer}
use aite_cs.Handlers.Pages.{handle_echo}
use aite_cs.RequestParser.Chars.{is_char, is_ctl, is_tspecial, is_digit}
use aite_cs.RequestParser.Machine.{not_token, consume, is_false, blank, method_start}
use aite_cs.RequestParser.Parse.{Parsed, reset, read_request, parse_from}
use aite_cs.RequestParser.Translate.{parse, translated, translate, set_fields, version_number}
use aite_cs.RequestParser.Wire.{Wire, IsWire, render, meaning}
use aite_cs.Server.Metrics.{served, occurrences, log_request}
use aite_cs.Server.Routing.{returned, get_request_handler, search_parents}
use aite_cs.Server.State.{Server, empty_server}
use aite_cs.Session.Alive.{IsReady, on_read_header-IsReady}
use aite_cs.Session.Callbacks.{
  Session, for_write, new_session, content_length_field, on_read_header, on_read_body, on_write,
  look_up, perform, write_error, write,
}
use aite_cs.Session.{handle_read_header, content_length_of}
use aite_cs.Session.Run.{Answer}
use aite_cs.Utils.ErrorPage.{page, show_error_page}
use aite_cs.Session.Refused.{refusal, on_read_header-uninitialised, on_read_header-on_write}
use aite_cs.Session.Split.{
  Accepts, Arrival, in_parts, received as exchanged, finish, served as exchange,
  on_read_header-on_read_body,
}
use aite_cs.Standard.Ints.{IsDecimal}
use aite_cs.Standard.Map.{find, assign, less_bytes, bytes_key}
use aite_cs.Utils.FilePath.{convert_to_absolute_path, walk, add_component, pop_back, unquote}
use aite_cs.Tests.Messages.{Letter, plain, plain-RequestLaws, quiet}
use aite_cs.Tests.Posix.{posix}

-- A POST of three bytes to /a.
abbrev pub post_a : Wire
post_a = record {
  method = codes "POST";
  uri = codes "/a";
  major = codes "1";
  minor = codes "1";
  headers = record { name = codes "Content-Length"; first = codes "3"; folds = [] } ∷ [];
}

pub post_a-IsWire : IsWire post_a
unfolding not_token is_char is_ctl is_tspecial is_digit
post_a-IsWire = record {
  method_nonempty = λ e. cc;
  method_token = (refl, (refl, (refl, (refl, tt))));
  uri_plain = ((λ e. omega (arith, e), refl), ((λ e. omega (arith, e), refl), tt));
  major_number = (λ e. cc, (refl, omega arith, tt));
  minor_number = (λ e. cc, (refl, omega arith, tt));
  headers_wf = (
    record {
      nonempty = λ e. cc;
      name_token = (
        refl,
        (
          refl,
          (
            refl,
            (
              refl,
              (refl, (refl, (refl, (refl, (refl, (refl, (refl, (refl, (refl, (refl, tt)))))))))),
            ),
          ),
        ),
      );
      first_plain = (refl, tt);
      folds_wf = tt;
    },
    tt,
  );
}

abbrev pub echo_at_a : Server
echo_at_a = record empty_server {
  handlers = echo ∷ [];
  location_to_handler_ = (codes "/a", 0) ∷ [];
}

abbrev pub received : Letter
received = record {
  post = equal (codes "POST") (codes "POST");
  address = codes "/a";
  fields = (codes "Content-Length", codes "3") ∷ [];
  text = [];
}

received_message : translate plain (new_session plain).request_ (meaning post_a) ≡ ok received
unfolding translate set_fields version_number new_session assign equal
received_message = refl

a_handler : get_request_handler posix echo_at_a (codes "/a") ≡ ok (returned (some 0))
unfolding get_request_handler search_parents convert_to_absolute_path walk add_component pop_back
    unquote equal find
a_handler = refl

first_request :
    Accepts plain plain-RequestLaws posix quiet echo_at_a (new_session plain) post_a received 0
unfolding new_session
first_request = record {
  ready = refl;
  no_body = refl;
  fresh = refl;
  well_formed = post_a-IsWire;
  message = received_message;
  handler = a_handler;
}

three_bytes : content_length_field plain received ≡ codes "3"
unfolding content_length_field find equal
three_bytes = refl

three-IsDecimal : IsDecimal (content_length_field plain received)
unfolding content_length_field find equal
three-IsDecimal = (λ e. cc, (refl, tt), omega arith)

on_read_header-on_read_body_example :
    (on_read_header plain posix quiet echo_at_a
          (new_session plain)
          (render post_a ((codes "a" ++ codes "bc") ++ codes "GET"))
        >>= finish plain
      ≡ exchange plain posix quiet echo_at_a (plain.set_body received (codes "abc")) 0)
    × ((on_read_header plain posix quiet echo_at_a (new_session plain) (render post_a (codes "a"))
            >>= λ r. on_read_body plain posix quiet r.0 r.1 (codes "bc"))
          >>= finish plain
        ≡ exchange plain posix quiet echo_at_a (plain.set_body received (codes "abc")) 0)
unfolding content_length_field find equal
on_read_header-on_read_body_example =
    on_read_header-on_read_body plain plain-RequestLaws posix quiet echo_at_a (new_session plain)
      post_a received 0 (codes "a") (codes "bc") (codes "GET") first_request three-IsDecimal refl
      (λ e. cc)

abbrev whole_request : Letter
whole_request = plain.set_body received (codes "abc")

abbrev echoed : Handled plain
echoed = answer plain echo_at_a (handle_echo plain whole_request)

echo_answers : handle_request plain posix quiet echo_at_a echo whole_request ≡ ok echoed
unfolding handle_request
echo_answers = refl

abbrev echo_status : ℕ
echo_status = plain.result (handle_echo plain whole_request)

abbrev two_reads : Arrival (codes "abc")
two_reads = in_parts (codes "a") (codes "bc") refl (λ e. cc)

on_read_header-IsReady_example :
    (server' : Server) × (next : Session plain) × (exchanged plain posix quiet echo_at_a
        (new_session plain)
        post_a
        two_reads
      ≡ ok (server', for_write (plain.print_response (handle_echo plain whole_request)), next))
    × IsReady plain next
    × (served server' (codes "/a", echo_status) ≡ suc (served echo_at_a (codes "/a", echo_status)))
unfolding content_length_field find equal
on_read_header-IsReady_example =
    on_read_header-IsReady plain plain-RequestLaws posix quiet echo_at_a (new_session plain) post_a
      received 0 (codes "abc") two_reads echo echoed first_request (inr (three-IsDecimal, refl))
      refl echo_answers (omega arith)

abbrev space_refused : Parsed
space_refused = record { result = is_false; state_ = method_start; req = blank; rest = codes "X" }

space_refused_run : read_request reset (codes " X") ≡ ok space_refused
unfolding read_request parse_from consume not_token is_char is_ctl is_tspecial
space_refused_run = refl

on_read_header-uninitialised_example :
    on_read_header plain posix quiet empty_server (new_session plain) (codes " X")
    ≡ err uninitialised
on_read_header-uninitialised_example =
    on_read_header-uninitialised plain posix quiet empty_server (codes " X") space_refused
      space_refused_run refl

-- A session that has answered the request, and its next header, which is refused.
abbrev answered_session : Session plain
answered_session = record {
  state_ = method_start;
  request_ = whole_request;
  response_ = plain.new_response;
  request_handler_ = some (some 0);
  body_data = [];
  waiting = for_write (codes "abc");
}

abbrev refused_server : Server
refused_server = record empty_server { requests_ = ((codes "/a", 400), 1) ∷ [] }

abbrev refused_session : Session plain
refused_session = record {
  state_ = method_start;
  request_ = record whole_request { fields = []; text = [] };
  response_ = show_error_page plain 400 refusal;
  request_handler_ = some (some 0);
  body_data = [];
  waiting = for_write (plain.print_response (show_error_page plain 400 refusal));
}

second_refused :
    on_read_header plain posix quiet empty_server (on_write plain answered_session) (codes " X")
    ≡ ok (refused_server, refused_session)
unfolding on_read_header on_write parse read_request parse_from consume not_token is_char is_ctl
    is_tspecial translated content_length_field look_up handle_read_header content_length_of perform
    write_error write log_request find assign show_error_page page equal less_bytes
second_refused = refl

on_read_header-on_write_example :
    (refused_session.waiting ≡ for_write (plain.print_response (show_error_page plain 400 refusal)))
    × ((k : Answer)
        → served refused_server k
          ≡ served empty_server k
            + occurrences k ((codes "/a", plain.result (show_error_page plain 400 refusal)) ∷ []))
on_read_header-on_write_example =
    on_read_header-on_write plain posix quiet plain-RequestLaws empty_server answered_session
      (codes " X") space_refused space_refused_run refl second_refused
