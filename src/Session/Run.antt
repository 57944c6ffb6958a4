-- ===== src/Session/Run.antt =====
-- src/session.cc and `handle_accept` of src/server.cc: the server with all its sessions, as steps. A step
-- is one callback; the mutex is held where `write` counts the request, and a callback of one session runs
-- after the one before it has returned.
use aite_cs.Prelude.{
  Bool, if◌then◌else◌, ℕ, zero, suc, ◌≤◌, List, [], ◌∷◌, ◌++◌, Option, none, some, Bytes, length,
  Result, ok, ◌≡◌, ◌≢◌,
}
use aite_cs.Http.{Http, World}
use aite_cs.Server.State.{Server}
use aite_cs.Session.Callbacks.{
  Session, for_header, for_body, for_write, closed, new_session, on_read_header, on_read_body,
  on_write, on_error,
}
use aite_cs.Utils.FilePath.{BoostPath}

-- A read past the end is `none`, and a write there changes nothing.
module _ {A : Type 0} where
  abbrev pub session_at : List A → ℕ → Option A
  session_at [] i = none
  session_at (x ∷ xs) zero = some x
  session_at (x ∷ xs) (suc i) = session_at xs i

  abbrev pub set_session : List A → ℕ → A → List A
  set_session [] i v = []
  set_session (x ∷ xs) zero v = v ∷ xs
  set_session (x ∷ xs) (suc i) v = x ∷ set_session xs i v

pub record System (http : Http) : Type 0 where
  pub server : Server
  pub sessions : List (Session http)

-- A request with its answer, as the server counts them: the target and the status.
abbrev pub Answer : Type 0
Answer = Bytes × ℕ

module _ (http : Http) where
  open http use {target, result}

  -- `max_length`
  abbrev pub max_length : ℕ
  max_length = 1024

  -- What a callback that has started a write has answered.
  unfoldable pub answered : Session http → List Answer
  answered session = elim session.waiting [
    | for_write _ ↦ (target session.request_, result session.response_) ∷ []
    | _ ↦ []
  ]

  abbrev pub with_session : System http → ℕ → Server → Session http → System http
  with_session system i server session = record {
    server = server;
    sessions = set_session system.sessions i session;
  }

  -- `handle_accept` and `start_accept`: a new connection is always waited for again, with a session that
  -- no callback sees before it is started here.
  unfoldable pub handle_accept : Bool → System http → System http
  handle_accept error system =
      if error
      then system
      else record system { sessions = system.sessions ++ new_session http ∷ [] }

  -- The callback that is bound to the operation that the session has started: it is called, without an
  -- error, when the operation has read `read`.
  unfoldable pub bound_callback :
      BoostPath → World http → Server → Session http → Bytes → Result (Server × Session http)
  bound_callback boost world server session read = elim session.waiting [
    | for_header ↦ on_read_header http boost world server session read
    | for_body _ ↦ on_read_body http boost world server session read
    | for_write _ ↦ ok (server, on_write http session)
    | closed ↦ ok (server, session)
  ]

  -- A step, with the answers that it gives.
  pub data Step (boost : BoostPath) : System http → List Answer → System http → Type 0 where
    accept :
        (system : System http) (error : Bool) → Step boost system [] (handle_accept error system)
    header_read :
        (system : System http) (i : ℕ) (world : World http) (read : Bytes)
        {session session' : Session http} {server' : Server}
        → session_at system.sessions i ≡ some session
        → session.waiting ≡ for_header
        → (read ≢ []) × (length read ≤ max_length)
        → on_read_header http boost world system.server session read ≡ ok (server', session')
        → Step boost system (answered session') (with_session system i server' session')
    body_read :
        (system : System http) (i n : ℕ) (world : World http) (read : Bytes)
        {session session' : Session http} {server' : Server}
        → session_at system.sessions i ≡ some session
        → session.waiting ≡ for_body n
        → length read ≡ n
        → on_read_body http boost world system.server session read ≡ ok (server', session')
        → Step boost system (answered session') (with_session system i server' session')
    written :
        (system : System http) (i : ℕ) (text : Bytes) {session : Session http}
        → session_at system.sessions i ≡ some session
        → session.waiting ≡ for_write text
        → Step boost system [] (with_session system i system.server (on_write http session))
    failed :
        (system : System http) (i : ℕ) {session : Session http}
        → session_at system.sessions i ≡ some session
        → session.waiting ≢ closed
        → Step boost system [] (with_session system i system.server (on_error http session))

  -- A run from a server without sessions, with the answers that it has given, the last one first.
  pub data Run (boost : BoostPath) (start : Server) : List Answer → System http → Type 0 where
    begin : Run boost start [] (record { server = start; sessions = [] })
    more :
        (given new : List Answer) (system system' : System http)
        → Run boost start given system
        → Step boost system new system'
        → Run boost start (new ++ given) system'
