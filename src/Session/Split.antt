-- ===== src/Session/Split.antt =====
-- A request is served in the same way however its body is split over two reads.
use aite_cs.Prelude.{
  inl, inr, arith, length-append, length-nonempty, ℕ, [], ◌++◌, Option, some, Bytes, length, pos,
  Result, ok, ◌>>=◌, ◌≡◌, ◌≢◌, refl, ap, ◌∙◌, bind_assoc, bind_congr,
}
use aite_cs.Http.{Http, World, RequestLaws}
use aite_cs.RequestParser.Machine.{is_true, expecting_newline_3}
use aite_cs.RequestParser.Parse.{reset}
use aite_cs.RequestParser.RoundTrip.{read_request-render}
use aite_cs.RequestParser.Translate.{parse, translated, translate, translate-target}
use aite_cs.RequestParser.Wire.{Wire, IsWire, render, meaning}
use aite_cs.Handlers.Dispatch.{handle_request}
use aite_cs.Server.Metrics.{log_request}
use aite_cs.Server.Tables.{get_elem?}
use aite_cs.Server.Routing.{returned, get_request_handler}
use aite_cs.Server.State.{Pointer, Server}
use aite_cs.Session.{content_length_of, handle_read_header, handle_read_body}
use aite_cs.Session.Body.{
  handle_read_header-handle_read_body, handle_read_header-whole, content_length_of-decimal,
  Announces, content_length_of-Announces,
}
use aite_cs.Session.Callbacks.{
  Session, Waiting, for_header, for_write, or_dangling, write, content_length_field, look_up,
  call_handler, perform, on_read_header, on_read_body, after_body, on_write,
}
use aite_cs.Standard.Ints.{IsDecimal, value_of}
use aite_cs.Utils.FilePath.{BoostPath}

-- A session in the middle of a write, with the server and what it does behind the write.
abbrev pub Sent : Http → Type 0
Sent http = Server × Waiting × Session http

abbrev pub finish : (http : Http) → Server × Session http → Result (Sent http)
finish http (server, session) = ok (server, session.waiting, on_write http session)

module _ (http : Http) (boost : BoostPath) (world : World http) where
  open http use {Request, Response, body, target, set_body, clear, result, print_response}

  -- The answer to a request: it is counted, printed, and the session gets ready for the next one.
  unfoldable pub sent : Server → Request → Response → Option Pointer → Result (Sent http)
  sent server req response pointer = do
    server' ← log_request server (target req, result response)
    ok (
      server',
      for_write (print_response response),
      record {
        state_ = reset;
        request_ = set_body (clear req) [];
        response_ = response;
        request_handler_ = some pointer;
        body_data = [];
        waiting = for_header;
      },
    )

  -- The answer of the handler to a request with its whole body.
  unfoldable pub served : Server → Request → Pointer → Result (Sent http)
  served server req pointer = do
    handler ← or_dangling (get_elem? server.handlers pointer)
    handled ← handle_request http boost world server handler req
    sent handled.server req handled.response (some pointer)

  pub write-sent :
      (server : Server) (session : Session http) (pointer : Option Pointer)
      → session.request_handler_ ≡ some pointer
      → write http server session >>= finish http
        ≡ sent server session.request_ session.response_ pointer
  unfolding write sent on_write
  write-sent server session pointer e = rw e (
      bind_assoc (log_request server (target session.request_, result session.response_)) _
        (finish http))

  pub call_handler-served :
      (server : Server) (session : Session http) (pointer : Pointer) (content : Bytes)
      → session.request_handler_ ≡ some (some pointer)
      → call_handler http boost world server session pointer content >>= finish http
        ≡ served server (set_body session.request_ content) pointer
  unfolding call_handler served
  call_handler-served server session pointer content e =
      let req = set_body session.request_ content in
      bind_assoc (or_dangling (get_elem? server.handlers pointer)) _ (finish http)
      ∙ bind_congr (or_dangling (get_elem? server.handlers pointer)) (λ handler.
        bind_assoc (handle_request http boost world server handler req) _ (finish http)
        ∙ bind_congr (handle_request http boost world server handler req) (λ handled.
          write-sent handled.server
            (record session { request_ = req; response_ = handled.response }) (some pointer) e))

module _ (http : Http) (laws : RequestLaws http) (boost : BoostPath) (world : World http) where
  open http use {Request, body, target, set_body}

  -- A session that waits for a header, with no body yet, and the header that comes.
  pub record Accepts (server : Server) (session : Session http) (w : Wire) (req : Request)
      (pointer : Pointer) : Type 0 where
    pub ready : session.state_ ≡ reset
    pub no_body : body session.request_ ≡ []
    pub fresh : session.body_data ≡ []
    pub well_formed : IsWire w
    pub message : translate http session.request_ (meaning w) ≡ ok req
    pub handler : get_request_handler boost server w.uri ≡ ok (returned (some pointer))

  -- What `on_read_header` does with the header of such a request and the bytes `read` behind it.
  on_read_header-accepts :
      (server : Server) (session : Session http) (w : Wire) (req : Request) (pointer : Pointer)
      (n : ℕ) (read : Bytes)
      → Accepts server session w req pointer
      → content_length_of (content_length_field http req) ≡ pos n
      → on_read_header http boost world server session (render w read)
        ≡ perform http boost world server
            (record session {
              state_ = expecting_newline_3;
              request_ = req;
              request_handler_ = some (some pointer);
            })
            (handle_read_header is_true (content_length_field http req) (some pointer) [] read)
  unfolding on_read_header parse translated look_up
  on_read_header-accepts server session w req pointer n read a positive =
      let (to, content) = translate-target http laws session.request_ (meaning w) a.message in
      let uri : target req ≡ w.uri = to in
      let empty : body req ≡ [] = content ∙ a.no_body in
      let found : get_request_handler boost server (target req) ≡ ok (returned (some pointer)) =
        ap (get_request_handler boost server) uri ∙ a.handler in
      rw (a.ready, read_request-render w read a.well_formed, a.message, positive, found, empty) refl

  -- A request whose header is accepted and whose content length is the decimal number of its bytes of
  -- body, at least one, is answered in the same way if its body comes with the header, with anything behind it, and if
  -- the part `first` comes with the header and the rest is read behind it: in both cases the handler
  -- that the server finds gets the same request with the whole body.
  pub on_read_header-on_read_body :
      (server : Server) (session : Session http) (w : Wire) (req : Request) (pointer : Pointer)
      (first later extra : Bytes)
      → Accepts server session w req pointer
      → IsDecimal (content_length_field http req)
      → value_of 0 (content_length_field http req) ≡ length (first ++ later)
      → later ≢ []
      → (on_read_header http boost world server session (render w ((first ++ later) ++ extra))
            >>= finish http
          ≡ served http boost world server (set_body req (first ++ later)) pointer)
        × ((on_read_header http boost world server session (render w first) >>= λ r.
                on_read_body http boost world r.0 r.1 later)
              >>= finish http
            ≡ served http boost world server (set_body req (first ++ later)) pointer)
  unfolding perform on_read_body after_body handle_read_body
  on_read_header-on_read_body server session w req pointer first later extra a d n ne =
      let (part, _, whole) =
        handle_read_header-handle_read_body (content_length_field http req) first later extra
          pointer d n ne in
      let number = content_length_of-decimal (content_length_field http req) d in
      let at_once =
        on_read_header-accepts server session w req pointer _ ((first ++ later) ++ extra) a
          number in
      let header = on_read_header-accepts server session w req pointer _ first a number in
      (
        ap (λ r. r >>= finish http) at_once
            ∙ rw whole
                (call_handler-served http boost world server _ pointer (first ++ later) refl),
        rw (header, part, a.fresh, laws.body-set_body req first)
            (call_handler-served http boost world server _ pointer (first ++ later) refl
              ∙ rw (laws.set_body_twice req first (first ++ later)) refl),
      )

-- How a body arrives: with the header, with anything behind it, or a part with the header and the rest in the
-- read behind it.
pub data Arrival (content : Bytes) : Type 0 where
  at_once : Bytes → Arrival content
  in_parts : (first later : Bytes) → content ≡ first ++ later → later ≢ [] → Arrival content

module _ (http : Http) (boost : BoostPath) (world : World http) where
  -- The callbacks of a request, up to the end of the write of its answer.
  abbrev pub received :
      Server → Session http → Wire → {content : Bytes} → Arrival content → Result (Sent http)
  received server session w {content} (at_once extra) =
      on_read_header http boost world server session (render w (content ++ extra)) >>= finish http
  received server session w (in_parts first later _ _) =
      (on_read_header http boost world server session (render w first) >>= λ r.
      on_read_body http boost world r.0 r.1 later)
      >>= finish http

  -- However its body arrives, and also without one, a request is served by its handler.
  pub received-served :
      (laws : RequestLaws http) (server : Server) (session : Session http) (w : Wire)
      (req : http.Request) (pointer : Pointer) (content : Bytes) (arrival : Arrival content)
      → Accepts http laws boost world server session w req pointer
      → Announces (content_length_field http req) (length content)
      → received server session w arrival
        ≡ served http boost world server (http.set_body req content) pointer
  unfolding perform
  received-served laws server session w req pointer content (at_once extra) a announced =
      let field = content_length_field http req in
      let header =
        on_read_header-accepts http laws boost world server session w req pointer _
          (content ++ extra) a (content_length_of-Announces field (length content) announced) in
      ap (λ r. r >>= finish http) header
      ∙ rw (handle_read_header-whole field content extra pointer announced)
          (call_handler-served http boost world server _ pointer content refl)
  received-served laws server session w req pointer content (in_parts first later parts ne) a
        (inl (absent, empty)) =
      let size = ap length parts in
      absurd (omega (arith, size, empty, length-append first later, length-nonempty later ne))
  received-served laws server session w req pointer content (in_parts first later parts ne) a
        (inr (decimal, number)) =
      let (_, split) =
        on_read_header-on_read_body http laws boost world server session w req pointer first later
          [] a decimal (number ∙ ap length parts) ne in
      rw parts split
