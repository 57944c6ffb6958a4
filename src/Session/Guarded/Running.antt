-- ===== src/Session/Guarded/Running.antt =====
-- The callbacks of a run.
use aite_cs.Prelude.{
  dangling, unfinished, ℕ, ◌<◌, List, Option, none, some, Bytes, length, Result, ok, err, ◌≡◌, ◌≢◌,
  refl, sym, subst,
}
use aite_cs.Handlers.Dispatch.{handle_request}
use aite_cs.Http.{Http, World}
use aite_cs.Server.Metrics.{log_request}
use aite_cs.Server.Routing.Longest.{ParentLaws}
use aite_cs.Server.State.{Pointer, Server}
use aite_cs.Server.Tables.{get_elem?-below, get_elem?-lt}
use aite_cs.Session.{
  Action, bad_request, bad_uri, read_header, respond, read_body, content_length_of,
  handle_read_header,
}
use aite_cs.RequestParser.Translate.{parse}
use aite_cs.Session.Callbacks.{
  Waiting, Session, for_header, for_body, for_write, closed, known, read_pointer,
  content_length_field, look_up, write, write_error, call_handler, perform, on_read_header,
}
use aite_cs.Session.Counted.{run-on_read_body, run-IsPointing}
use aite_cs.Session.Found.{IsPointing, handle_read_header-below}
use aite_cs.Session.Guarded.{IsGuarded, IsGuarded-err, bind-IsGuarded}
use aite_cs.Session.Guarded.Handling.{handle_request-IsGuarded, log_request-IsGuarded}
use aite_cs.Session.Guarded.Reading.{parse-IsGuarded, look_up-IsGuarded}
use aite_cs.Session.Run.{Answer, System, session_at, bound_callback, Run}
use aite_cs.Utils.FilePath.{BoostPath}

read_pointer-IsGuarded : (handler : Option (Option Pointer)) → IsGuarded (read_pointer handler)
read_pointer-IsGuarded none = ((λ e. cc), λ e. cc)
read_pointer-IsGuarded (some p) = tt

module _ (http : Http) where
  write-IsGuarded :
      (server : Server) (session : Session http) → IsGuarded (write http server session)
  unfolding write
  write-IsGuarded server session =
      bind-IsGuarded (read_pointer session.request_handler_) _
        (read_pointer-IsGuarded session.request_handler_)
        (λ h _.
          bind-IsGuarded (log_request server _) _ (log_request-IsGuarded server _) (λ s e. tt))

  module _ (boost : BoostPath) (world : World http) where
    call_handler-IsGuarded :
        (server : Server) (session : Session http) (pointer : Pointer) (content : Bytes)
        → pointer < length server.handlers
        → IsGuarded (call_handler http boost world server session pointer content)
    unfolding call_handler
    call_handler-IsGuarded server session pointer content below =
        let (h, there) = get_elem?-lt server.handlers pointer below in
        rw there (
          bind-IsGuarded (handle_request http boost world server h _) _
            (handle_request-IsGuarded http boost world server h _)
            (λ handled _. write-IsGuarded handled.server _))

    perform-IsGuarded :
        (server : Server) (session : Session http) (action : Action)
        → ((p : Pointer) (content : Bytes)
            → action ≡ respond p content
            → p < length server.handlers)
        → IsGuarded (perform http boost world server session action)
    unfolding perform write_error
    perform-IsGuarded server session bad_request below = write-IsGuarded server _
    perform-IsGuarded server session bad_uri below = write-IsGuarded server _
    perform-IsGuarded server session read_header below = tt
    perform-IsGuarded server session (respond p content) below =
        call_handler-IsGuarded server session p content (below p content refl)
    perform-IsGuarded server session (read_body n content) below = tt

    on_read_header-IsGuarded :
        (laws : ParentLaws boost) (server : Server) (session : Session http) (read : Bytes)
        → IsPointing server
        → IsGuarded (on_read_header http boost world server session read)
    unfolding on_read_header
    on_read_header-IsGuarded laws server session read a =
        bind-IsGuarded (parse http session.request_ session.state_ read) _
          (parse-IsGuarded http session.request_ session.state_ read)
          (λ r _.
            let parsed = r.0 in
            let req = r.1 in
            let field = content_length_field http req in
            let search =
              look_up boost parsed.result (content_length_of field) server (http.target req)
                session.request_handler_ in
            bind-IsGuarded search _
              (look_up-IsGuarded boost laws parsed.result (content_length_of field) server
                (http.target req) session.request_handler_)
              (λ handler looked.
                perform-IsGuarded server _
                  (handle_read_header parsed.result field (known handler) (http.body req)
                    parsed.rest)
                  (λ p content act.
                    handle_read_header-below boost parsed.result field (http.target req) server
                      session.request_handler_ (http.body req) parsed.rest content p a looked act)))

chosen-IsGuarded :
    {A : Type 0} (waiting : Waiting) (header body : Result A) (after_write still : A)
    → (waiting ≡ for_header → IsGuarded header)
    → ((n : ℕ) → waiting ≡ for_body n → IsGuarded body)
    → IsGuarded (elim waiting [
      | for_header ↦ header
      | for_body _ ↦ body
      | for_write _ ↦ ok after_write
      | closed ↦ ok still
    ])
chosen-IsGuarded for_header header body after_write still h b = h refl
chosen-IsGuarded (for_body n) header body after_write still h b = b n refl
chosen-IsGuarded (for_write text) header body after_write still h b = tt
chosen-IsGuarded closed header body after_write still h b = tt

module _ (http : Http) (boost : BoostPath) (laws : ParentLaws boost) (start : Server) where
  bound_callback-IsGuarded :
      (world : World http) (given : List Answer) (system : System http) (i : ℕ)
      (session : Session http) (read : Bytes)
      → IsPointing start
      → Run http boost start given system
      → session_at system.sessions i ≡ some session
      → IsGuarded (bound_callback http boost world system.server session read)
  unfolding bound_callback
  bound_callback-IsGuarded world given system i session read a run at =
      chosen-IsGuarded session.waiting _ _ _ _
        (λ w.
          on_read_header-IsGuarded http boost world laws system.server session read
            (run-IsPointing http boost start given system a run))
        (λ n w.
          let (p, h, e, there, calls) =
            run-on_read_body http boost start given system i n session a run at w in
          subst IsGuarded (sym (calls world read)) (
            call_handler-IsGuarded http boost world system.server _ p _
              (get_elem?-below system.server.handlers p there)))

  -- In every run of a server whose locations all have a handler, no callback of a session uses a pointer to no
  -- handler, and no loop of the model lacks fuel, whatever was read, if the paths have the laws of parent paths.
  pub run-bound_callback :
      (world : World http) (given : List Answer) (system : System http) (i : ℕ)
      (session : Session http) (read : Bytes)
      → IsPointing start
      → Run http boost start given system
      → session_at system.sessions i ≡ some session
      → (bound_callback http boost world system.server session read ≢ err dangling)
        × (bound_callback http boost world system.server session read ≢ err unfinished)
  run-bound_callback world given system i session read a run at =
      let guarded = bound_callback-IsGuarded world given system i session read a run at in
      (λ e. (IsGuarded-err _ guarded e).0 refl, λ e. (IsGuarded-err _ guarded e).1 refl)
