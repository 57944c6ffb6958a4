-- ===== src/Session/Callbacks.antt =====
-- src/session.cc: the members of a session, and its callbacks.
use aite_cs.Prelude.{
  ℕ, [], ◌++◌, Option, none, some, Bytes, codes, ℤ, pos, Result, ok, err, ◌>>=◌, uninitialised,
  dangling, unfinished,
}
use aite_cs.Handlers.Dispatch.{handle_request}
use aite_cs.Http.{Http, World}
use aite_cs.RequestParser.Machine.{State, Tribool, is_true}
use aite_cs.RequestParser.Parse.{reset}
use aite_cs.RequestParser.Translate.{parse}
use aite_cs.Server.Metrics.{log_request}
use aite_cs.Server.Routing.{Search, returned, out_of_fuel, get_request_handler}
use aite_cs.Server.State.{Pointer, Server}
use aite_cs.Server.Tables.{get_elem?}
use aite_cs.Session.{
  Action, bad_request, bad_uri, read_header, respond, read_body, content_length_of,
  handle_read_header, handle_read_body,
}
use aite_cs.Utils.ErrorPage.{show_error_page}
use aite_cs.Utils.FilePath.{BoostPath}

-- The operation that a session has started on its socket: a read of a header, a read of so many bytes of
-- a body, a write of a text; or none, when its last callback had an error and the session is destroyed.
pub data Waiting : Type 0 where
  for_header : Waiting
  for_body : ℕ → Waiting
  for_write : Bytes → Waiting
  closed : Waiting

-- The members, with the state of `request_parser_`. `request_handler_` is `none` until it is first
-- set, and `some none` when it is null.
pub record Session (http : Http) : Type 0 where
  pub state_ : State
  pub request_ : http.Request
  pub response_ : http.Response
  pub request_handler_ : Option (Option Pointer)
  pub body_data : Bytes
  pub waiting : Waiting

-- A read of the pointer.
abbrev pub read_pointer : Option (Option Pointer) → Result (Option Pointer)
read_pointer none = err uninitialised
read_pointer (some pointer) = ok pointer

abbrev pub pointer_found : Search → Result (Option Pointer)
pointer_found (returned pointer) = ok pointer
pointer_found out_of_fuel = err unfinished

abbrev pub or_dangling {ℓ} : {A : Type ℓ} → Option A → Result A
or_dangling none = err dangling
or_dangling (some a) = ok a

abbrev pub or_empty : Option Bytes → Bytes
or_empty none = []
or_empty (some value) = value

-- The handler that is known, if it is not null.
abbrev pub known : Option (Option Pointer) → Option Pointer
known none = none
known (some pointer) = pointer

module _ (boost : BoostPath) where
  -- The handler is looked up for an accepted header whose content length is at least 0.
  unfoldable pub look_up :
      Tribool → ℤ → Server → Bytes → Option (Option Pointer) → Result (Option (Option Pointer))
  look_up is_true (pos _) server uri handler = do
    search ← get_request_handler boost server uri
    pointer ← pointer_found search
    ok (some pointer)
  look_up _ _ server uri handler = ok handler

module _ (http : Http) where
  open http use {
    Request, Response, new_request, new_response, target, body, set_body, clear, find_field, result,
    print_response,
  }

  -- The constructor and `start`.
  unfoldable pub new_session : Session http
  new_session = record {
    state_ = reset;
    request_ = new_request;
    response_ = new_response;
    request_handler_ = none;
    body_data = [];
    waiting = for_header;
  }

  -- `write`, which reads the handler for the log and counts the request.
  unfoldable pub write : Server → Session http → Result (Server × Session http)
  write server session = do
    handler ← read_pointer session.request_handler_
    server' ← log_request server (target session.request_, result session.response_)
    ok (server', record session { waiting = for_write (print_response session.response_) })

  unfoldable pub write_error : Server → Session http → Bytes → Result (Server × Session http)
  write_error server session message =
      write server (record session { response_ = show_error_page http 400 message })

  unfoldable pub content_length_field : Request → Bytes
  content_length_field req = or_empty (find_field req (codes "Content-Length"))

  module _ (boost : BoostPath) where
    module _ (world : World http) where
      -- `response_ = request_handler_->handle_request(request_)`, and `write`.
      unfoldable pub call_handler :
          Server → Session http → Pointer → Bytes → Result (Server × Session http)
      call_handler server session pointer content = do
        handler ← or_dangling (get_elem? server.handlers pointer)
        let req = set_body session.request_ content
        handled ← handle_request http boost world server handler req
        write handled.server (record session { request_ = req; response_ = handled.response })

      -- What was decided is done. The request gets the body so far, which is its own where nothing was
      -- appended.
      unfoldable pub perform : Server → Session http → Action → Result (Server × Session http)
      perform server session bad_request =
          write_error server session (codes "Invalid request headers or content length")
      perform server session bad_uri =
          write_error server session
            (codes "Error getting handler for uri " ++ target session.request_)
      perform server session read_header = ok (server, record session { waiting = for_header })
      perform server session (respond pointer content) = call_handler server session pointer content
      perform server session (read_body n content) = ok (
        server,
        record session { request_ = set_body session.request_ content; waiting = for_body n },
      )

      -- `handle_read_header` without an error: `read` is what the socket has put into `data_`.
      unfoldable pub on_read_header : Server → Session http → Bytes → Result (Server × Session http)
      on_read_header server session read = do
        r ← parse http session.request_ session.state_ read
        let parsed = r.0
        let req = r.1
        let field = content_length_field req
        handler ←
            look_up boost parsed.result (content_length_of field) server (target req)
              session.request_handler_
        perform server
            (record session { state_ = parsed.state_; request_ = req; request_handler_ = handler })
            (handle_read_header parsed.result field (known handler) (body req) parsed.rest)

      -- The choice between the handler and an error page.
      unfoldable pub after_body :
          Server → Session http → Option Pointer → Result (Server × Session http)
      after_body server session handler =
          elim (handle_read_body handler (body session.request_) session.body_data) [
            | respond pointer content ↦ call_handler server session pointer content
            | _ ↦ write_error server session (codes "N/A")
          ]

      -- `handle_read_body` without an error: `read` is what the socket has added to `body_data`.
      unfoldable pub on_read_body : Server → Session http → Bytes → Result (Server × Session http)
      on_read_body server session read = do
        handler ← read_pointer session.request_handler_
        after_body server (record session { body_data = session.body_data ++ read }) handler

  -- `handle_write` without an error.
  unfoldable pub on_write : Session http → Session http
  on_write session = record session {
    state_ = reset;
    request_ = set_body (clear session.request_) [];
    body_data = [];
    waiting = for_header;
  }

  -- Each of the three callbacks with an error.
  unfoldable pub on_error : Session http → Session http
  on_error session = record session { waiting = closed }
