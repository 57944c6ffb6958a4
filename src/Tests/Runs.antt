-- ===== src/Tests/Runs.antt =====
-- Runs of the started server: one session reads a request, at once or up to its body.
use aite_cs.Prelude.{
  ◌%◌, ◌^◌, [], false, ◌∷◌, ◌++◌, some, Bytes, codes, equal, ok, err, dangling, unfinished, ◌≡◌,
  ◌≢◌, refl, arith,
}
use aite_cs.Handlers.{RequestHandler}
use aite_cs.Handlers.Dispatch.{handle_request}
use aite_cs.Handlers.Pages.{handle_echo}
use aite_cs.Http.{World}
use aite_cs.RequestParser.Chars.{is_char, is_ctl, is_tspecial, is_digit}
use aite_cs.RequestParser.Machine.{
  not_token, consume, push_digit, push_name, push_value, expecting_newline_3,
}
use aite_cs.RequestParser.Parse.{read_request, parse_from}
use aite_cs.RequestParser.Translate.{parse, translated, translate, set_fields, version_number}
use aite_cs.RequestParser.Wire.{render}
use aite_cs.Server.Metrics.{served, occurrences, log_request}
use aite_cs.Server.Routing.{get_request_handler, search_parents}
use aite_cs.Server.State.{Pointer, Server}
use aite_cs.Server.Tables.{get_elem?}
use aite_cs.Session.{content_length_of, take_body, on_header, handle_read_header}
use aite_cs.Session.Callbacks.{
  Session, for_body, for_write, new_session, content_length_field, look_up, write, call_handler,
  perform, on_read_header, on_read_body,
}
use aite_cs.Session.Counted.{run-on_read_body}
use aite_cs.Session.Run.{
  System, answered, with_session, handle_accept, accept, header_read, bound_callback, Run, begin,
  more,
}
use aite_cs.Session.Guarded.Running.{run-bound_callback}
use aite_cs.Standard.Ints.{stoi}
use aite_cs.Standard.Map.{find, assign, less_bytes, bytes_key}
use aite_cs.Startup.Listening.{main-run}
use aite_cs.Utils.ErrorPage.{page}
use aite_cs.Utils.FilePath.{convert_to_absolute_path, walk, add_component, pop_back, unquote}
use aite_cs.Tests.Exchanges.{post_a, received}
use aite_cs.Tests.Messages.{plain, quiet}
use aite_cs.Tests.Posix.{posix, posix-ParentLaws}
use aite_cs.Tests.Program.{no_directory, open_host, started_server, echo_started}

abbrev answer_page : plain.Response
answer_page = record {
  status = 200;
  headers = (codes "Content-Type", codes "text/plain") ∷ [];
  text = codes "Content-Length: 3\r\nabc";
}

abbrev counting_server : Server
counting_server = record started_server { requests_ = ((codes "/a", 200), 1) ∷ [] }

abbrev writing_session : Session plain
writing_session = record {
  state_ = expecting_newline_3;
  request_ = record received { text = codes "abc" };
  response_ = answer_page;
  request_handler_ = some (some 0);
  body_data = [];
  waiting = for_write (plain.print_response answer_page);
}

request_read :
    on_read_header plain posix quiet started_server
      (new_session plain)
      (render post_a (codes "abc"))
    ≡ ok (counting_server, writing_session)
unfolding on_read_header new_session parse read_request parse_from consume push_digit not_token
    is_char is_ctl is_tspecial is_digit push_name push_value translated translate set_fields
    version_number content_length_field look_up get_request_handler search_parents
    convert_to_absolute_path walk add_component pop_back unquote handle_read_header on_header
    take_body content_length_of stoi perform call_handler handle_request handle_echo page write
    log_request find assign equal less_bytes
request_read = refl

abbrev started_system : System plain
started_system = record { server = started_server; sessions = [] }

abbrev connected : System plain
connected = record { server = started_server; sessions = new_session plain ∷ [] }

connected_run : Run plain posix started_server [] connected
unfolding handle_accept
connected_run = more [] [] started_system connected begin (accept started_system false)

counted_run :
    Run plain posix started_server
      (answered plain writing_session ++ [])
      (with_session plain connected 0 counting_server writing_session)
unfolding new_session
counted_run = more [] _ connected _ connected_run (
    header_read connected 0 quiet (render post_a (codes "abc")) refl refl ((λ e. cc), omega arith)
      request_read)

main-run_example :
    served counting_server (codes "/a", 200)
    ≡ occurrences (codes "/a", 200) (answered plain writing_session ++ [])
main-run_example =
    main-run posix no_directory open_host plain (codes "4" ∷ codes "config" ∷ []) 4 (80 % 2 ^ 16)
      started_server (answered plain writing_session ++ [])
      (with_session plain connected 0 counting_server writing_session) echo_started counted_run
      (codes "/a", 200)

abbrev reading_session : Session plain
reading_session = record {
  state_ = expecting_newline_3;
  request_ = record received { text = codes "a" };
  response_ = plain.new_response;
  request_handler_ = some (some 0);
  body_data = [];
  waiting = for_body 2;
}

header_only :
    on_read_header plain posix quiet started_server (new_session plain) (render post_a (codes "a"))
    ≡ ok (started_server, reading_session)
unfolding on_read_header new_session parse read_request parse_from consume push_digit not_token
    is_char is_ctl is_tspecial is_digit push_name push_value translated translate set_fields
    version_number content_length_field look_up get_request_handler search_parents
    convert_to_absolute_path walk add_component pop_back unquote handle_read_header on_header
    take_body content_length_of stoi perform find assign equal less_bytes
header_only = refl

reading_run :
    Run plain posix started_server
      (answered plain reading_session ++ [])
      (with_session plain connected 0 started_server reading_session)
unfolding new_session
reading_run = more [] _ connected _ connected_run (
    header_read connected 0 quiet (render post_a (codes "a")) refl refl ((λ e. cc), omega arith)
      header_only)

run-on_read_body_example :
    (p : Pointer) × (h : RequestHandler) × (reading_session.request_handler_ ≡ some (some p))
    × (get_elem? started_server.handlers p ≡ some h)
    × ((world : World plain) (read : Bytes)
        → on_read_body plain posix world started_server reading_session read
          ≡ call_handler plain posix world started_server
              (record reading_session { body_data = read })
              p
              (codes "a" ++ read))
run-on_read_body_example =
    run-on_read_body plain posix started_server (answered plain reading_session ++ [])
      (with_session plain connected 0 started_server reading_session) 0 2 reading_session
      (omega arith, tt) reading_run refl refl

run-bound_callback_example :
    (bound_callback plain posix quiet started_server reading_session (codes "bc") ≢ err dangling)
    × (bound_callback plain posix quiet started_server reading_session (codes "bc")
        ≢ err unfinished)
run-bound_callback_example =
    run-bound_callback plain posix posix-ParentLaws started_server quiet
      (answered plain reading_session ++ [])
      (with_session plain connected 0 started_server reading_session) 0 reading_session (codes "bc")
      (omega arith, tt) reading_run refl
