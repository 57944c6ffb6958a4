-- ===== src/Session/Effects.antt =====
-- What a callback changes of the server: it counts the answer that it gives, and leaves the handlers and
-- their locations alone. What a session that reads a body knows of its handler.
use aite_cs.Prelude.{
  ℕ, ◌+◌, ◌<◌, [], ◌++◌, some, Bytes, codes, length, Result, ok, bind-eq-ok, Option-cases, inl, inr,
  ◌≡◌, refl, sym, ap, ◌∙◌, subst, arith,
}
use aite_cs.Handlers.Dispatch.{handle_request}
use aite_cs.Handlers.Kept.{handle_request-Keeps}
use aite_cs.Http.{Http, World}
use aite_cs.Server.Metrics.{
  request_key, log_request, log_request-counted, log_request-count, counted, served, occurrences,
}
use aite_cs.Server.State.{Pointer, Server}
use aite_cs.Server.Tables.{get_elem?}
use aite_cs.Session.{
  Action, bad_request, bad_uri, read_header, respond, read_body, content_length_of,
  handle_read_header, handle_read_body,
}
use aite_cs.RequestParser.Translate.{parse}
use aite_cs.Session.Callbacks.{
  Session, for_header, for_body, for_write, known, or_dangling, read_pointer, content_length_field,
  look_up, write, write_error, call_handler, perform, on_read_header, on_read_body, after_body,
}
use aite_cs.Session.Found.{IsPointing, handle_read_header-found}
use aite_cs.Session.Run.{Answer, answered}
use aite_cs.Standard.Map.{Map}
use aite_cs.Standard.Map.Sorted.{count}
use aite_cs.Utils.ErrorPage.{show_error_page}
use aite_cs.Utils.FilePath.{BoostPath}

pub record Effect (http : Http) (before after : Server) (session : Session http) : Type 0 where
  pub handlers : after.handlers ≡ before.handlers
  pub locations : after.location_to_handler_ ≡ before.location_to_handler_
  pub counts :
      (k : Answer) → served after k ≡ served before k + occurrences k (answered http session)

-- A session that waits for a body has a handler among those of the server.
abbrev pub HasHandler : (http : Http) → Server → Session http → Type 0
HasHandler http server session =
    (n : ℕ)
    → session.waiting ≡ for_body n
    → (p : Pointer) × (session.request_handler_ ≡ some (some p)) × (p < length server.handlers)

module _ (http : Http) where
  open http use {Request, Response, body, target, set_body, result, print_response}

  pub write-Effect :
      (server : Server) (session : Session http) {server' : Server} {session' : Session http}
      → write http server session ≡ ok (server', session')
      → Effect http server server' session'
        × (session' ≡ record session { waiting = for_write (print_response session.response_) })
  unfolding write answered counted
  write-Effect server session {server'} {session'} e =
      let (_, _, e1) = bind-eq-ok (read_pointer session.request_handler_) _ e in
      let r : Answer = (target session.request_, result session.response_) in
      let (server'', logged, e2) = bind-eq-ok (log_request server r) _ e1 in
      let last = record session { waiting = for_write (print_response session.response_) } in
      let same : server'' ≡ server' = cc in
      let same_session : last ≡ session' = cc in
      let effect : Effect http server server'' last = record {
        handlers = sym (ap (λ (s : Server). s.handlers) (log_request-counted server r logged));
        locations =
            sym (ap (λ (s : Server). s.location_to_handler_) (log_request-counted server r logged));
        counts = λ k. log_request-count server r k logged ∙ omega arith;
      } in
      (
        subst (λ (s : Server). Effect http server s session') same
            (subst (Effect http server server'') same_session effect),
        sym same_session,
      )

  write-HasHandler :
      (server : Server) (session : Session http) {server' : Server} {session' : Session http}
      → write http server session ≡ ok (server', session')
      → HasHandler http server' session'
  write-HasHandler server session {server'} {session'} e n waits =
      let shape = (write-Effect server session e).1 in
      let writes : for_write (print_response session.response_) ≡ session'.waiting =
        ap (λ (s : Session http). s.waiting) (sym shape) in
      absurd (cc)

  module _ (boost : BoostPath) (world : World http) where
    call_handler-Effect :
        (server : Server) (session : Session http) (pointer : Pointer) (content : Bytes)
        {server' : Server} {session' : Session http}
        → call_handler http boost world server session pointer content ≡ ok (server', session')
        → Effect http server server' session' × HasHandler http server' session'
    unfolding call_handler
    call_handler-Effect server session pointer content {server'} {session'} e =
        let (handler, _, e1) = bind-eq-ok (or_dangling (get_elem? server.handlers pointer)) _ e in
        let req = set_body session.request_ content in
        let (handled, answer, e2) =
          bind-eq-ok (handle_request http boost world server handler req) _ e1 in
        let kept = handle_request-Keeps http boost world server handler req answer in
        let next = record session { request_ = req; response_ = handled.response } in
        let (effect, _) = write-Effect handled.server next e2 in
        (
          record {
            handlers = effect.handlers ∙ kept.handlers;
            locations = effect.locations ∙ kept.locations;
            counts = λ k.
                effect.counts k
                ∙ ap (λ (m : Map Answer ℕ). count m k + occurrences k (answered http session'))
                    kept.requests;
          },
          write-HasHandler handled.server next e2,
        )

    -- A callback that writes nothing.
    idle :
        (server : Server) (session : Session http) {server' : Server} {session' : Session http}
        → answered http session ≡ []
        → HasHandler http server session
        → ◌≡◌ {A = Result (Server × Session http)} (ok (server, session)) (ok (server', session'))
        → Effect http server server' session' × HasHandler http server' session'
    idle server session {server'} {session'} quiet handler e =
        let same : server ≡ server' = cc in
        let same_session : session ≡ session' = cc in
        let effect : Effect http server server session = record {
          handlers = refl;
          locations = refl;
          counts = λ k. rw quiet (omega arith);
        } in
        (
          subst (λ (s : Server). Effect http server s session') same
              (subst (Effect http server server) same_session effect),
          subst (λ (s : Server). HasHandler http s session') same
              (subst (HasHandler http server) same_session handler),
        )

    perform-Effect :
        (server : Server) (session : Session http) (action : Action) {server' : Server}
        {session' : Session http}
        → ((n : ℕ) (content : Bytes)
            → action ≡ read_body n content
            → (p : Pointer) × (session.request_handler_ ≡ some (some p))
              × (p < length server.handlers))
        → perform http boost world server session action ≡ ok (server', session')
        → Effect http server server' session' × HasHandler http server' session'
    unfolding perform write_error answered
    perform-Effect server session bad_request found e =
        let s = record session {
          response_ = show_error_page http 400 (codes "Invalid request headers or content length");
        } in
        ((write-Effect server s e).0, write-HasHandler server s e)
    perform-Effect server session bad_uri found e =
        let s = record session {
          response_ =
              show_error_page http 400
                (codes "Error getting handler for uri " ++ target session.request_);
        } in
        ((write-Effect server s e).0, write-HasHandler server s e)
    perform-Effect server session (respond pointer content) found e =
        call_handler-Effect server session pointer content e
    perform-Effect server session read_header found e =
        idle server (record session { waiting = for_header }) refl (λ n w. absurd (cc)) e
    perform-Effect server session (read_body n content) found e =
        idle server
          (record session { request_ = set_body session.request_ content; waiting = for_body n })
          refl (λ m w. found n content refl) e

    pub on_read_header-Effect :
        (server : Server) (session : Session http) (read : Bytes) {server' : Server}
        {session' : Session http}
        → IsPointing server
        → on_read_header http boost world server session read ≡ ok (server', session')
        → Effect http server server' session' × HasHandler http server' session'
    unfolding on_read_header
    on_read_header-Effect server session read a e =
        let ((parsed, req), _, e2) =
          bind-eq-ok (parse http session.request_ session.state_ read) _ e in
        let field = content_length_field http req in
        let (handler, looked, e3) =
          bind-eq-ok
            (look_up boost parsed.result (content_length_of field) server (target req)
              session.request_handler_)
            _ e2 in
        perform-Effect server
          (record session { state_ = parsed.state_; request_ = req; request_handler_ = handler })
          (handle_read_header parsed.result field (known handler) (body req) parsed.rest)
          (λ n content act.
            handle_read_header-found boost parsed.result field (target req) server
              session.request_handler_ (body req) parsed.rest content n a looked act)
          e3

    pub on_read_body-Effect :
        (server : Server) (session : Session http) (read : Bytes) {server' : Server}
        {session' : Session http}
        → on_read_body http boost world server session read ≡ ok (server', session')
        → Effect http server server' session' × HasHandler http server' session'
    unfolding on_read_body after_body handle_read_body write_error
    on_read_body-Effect server session read e =
        let (handler, _, e1) = bind-eq-ok (read_pointer session.request_handler_) _ e in
        let filled = record session { body_data = session.body_data ++ read } in
        elim (Option-cases handler) [
          | inl null ↦
              let s = record filled { response_ = show_error_page http 400 (codes "N/A") } in
              let wrote = rw null at e1 in
              ((write-Effect server s wrote).0, write-HasHandler server s wrote)
          | inr (p, points) ↦
              call_handler-Effect server filled p (body session.request_ ++ filled.body_data)
                (rw points at e1)
        ]
