-- ===== src/Session/Counted.antt =====
-- Runs of the server: the table of requests counts the answers, and a session that waits for a body has
-- its handler.
use aite_cs.Prelude.{
  true, false, ℕ, zero, suc, ◌+◌, ◌<◌, List, [], ◌∷◌, ◌++◌, some, Bytes, All, All-append, length,
  ◌>>=◌, ◌≡◌, refl, sym, ap, ◌∙◌, subst, arith,
}
use aite_cs.Handlers.{RequestHandler}
use aite_cs.Http.{Http, World}
use aite_cs.Server.Metrics.{served, occurrences}
use aite_cs.Server.State.{Pointer, Server}
use aite_cs.Server.Tables.{get_elem?, get_elem?-lt}
use aite_cs.Session.{handle_read_body}
use aite_cs.Session.Callbacks.{
  Session, for_body, new_session, read_pointer, call_handler, on_read_body, after_body, on_write,
  on_error,
}
use aite_cs.Session.Effects.{Effect, HasHandler, on_read_header-Effect, on_read_body-Effect}
use aite_cs.Session.Found.{IsPointing}
use aite_cs.Session.Run.{
  Answer, System, session_at, set_session, answered, with_session, handle_accept, Step, accept,
  header_read, body_read, written, failed, Run, begin, more,
}
use aite_cs.Standard.Map.{find}
use aite_cs.Standard.Map.Sorted.{count}
use aite_cs.Utils.FilePath.{BoostPath}

occurrences-append :
    (k : Answer) (a b : List Answer) → occurrences k (a ++ b) ≡ occurrences k a + occurrences k b
occurrences-append k [] b = omega arith
occurrences-append k (r ∷ a) b = omega (arith, occurrences-append k a b)

set_session-All :
    {A : Type 0} (P : A → Type 0) (xs : List A) (i : ℕ) (v : A)
    → All P xs
    → P v
    → All P (set_session xs i v)
set_session-All P [] i v _ h = tt
set_session-All P (x ∷ xs) zero v (_, ps) h = (h, ps)
set_session-All P (x ∷ xs) (suc i) v (p, ps) h = (p, set_session-All P xs i v ps h)

session_at-All :
    {A : Type 0} (P : A → Type 0) (xs : List A) (i : ℕ) {v : A}
    → All P xs
    → session_at xs i ≡ some v
    → P v
session_at-All P [] i _ e = absurd (cc)
session_at-All P (x ∷ xs) zero {v} (p, _) e = let same : x ≡ v = cc in subst P same p
session_at-All P (x ∷ xs) (suc i) (_, ps) e = session_at-All P xs i ps e

-- A system that has come from `start` with the answers `given`.
record IsReached (http : Http) (start : Server) (given : List Answer) (system : System http)
    : Type 0 where
  pub handlers : system.server.handlers ≡ start.handlers
  pub locations : system.server.location_to_handler_ ≡ start.location_to_handler_
  pub counts : (k : Answer) → served system.server k ≡ served start k + occurrences k given
  pub bodies : All (HasHandler http start) system.sessions

on_read_body-known :
    (http : Http) (boost : BoostPath) (world : World http) (server : Server)
    (session : Session http) (p : Pointer) (read : Bytes)
    → session.request_handler_ ≡ some (some p)
    → on_read_body http boost world server session read
      ≡ call_handler http boost world server
          (record session { body_data = session.body_data ++ read })
          p
          (http.body session.request_ ++ (session.body_data ++ read))
unfolding on_read_body after_body handle_read_body
on_read_body-known http boost world server session p read e =
    ap
      (λ h.
        read_pointer h
        >>= after_body http boost world server
            (record session { body_data = session.body_data ++ read }))
      e

module _ (http : Http) (boost : BoostPath) (start : Server) where
  pointing :
      (given : List Answer) (system : System http)
      → IsReached http start given system
      → IsPointing start
      → IsPointing system.server
  pointing given system r a =
      subst (λ hs. All (λ entry. entry.1 < length hs) system.server.location_to_handler_)
        (sym r.handlers)
        (subst (All (λ entry. entry.1 < length start.handlers)) (sym r.locations) a)

  -- A callback that reads.
  after_read :
      (given : List Answer) (system : System http) (i : ℕ) (server' : Server)
      (session' : Session http)
      → IsReached http start given system
      → Effect http system.server server' session' × HasHandler http server' session'
      → IsReached http start
          (answered http session' ++ given)
          (with_session http system i server' session')
  after_read given system i server' session' r (effect, handler) =
      let hs = effect.handlers ∙ r.handlers in
      record {
        handlers = hs;
        locations = effect.locations ∙ r.locations;
        counts = λ k. omega (
          arith,
          effect.counts k,
          r.counts k,
          occurrences-append k (answered http session') given,
        );
        bodies =
            set_session-All (HasHandler http start) system.sessions i session' r.bodies (λ n w.
              let (p, e, below) = handler n w in (p, e, subst (λ l. p < length l) hs below));
      }

  -- A callback that leaves the server alone.
  after_other :
      (given : List Answer) (system : System http) (i : ℕ) (session' : Session http)
      → IsReached http start given system
      → HasHandler http start session'
      → IsReached http start given (with_session http system i system.server session')
  after_other given system i session' r h = record {
    handlers = r.handlers;
    locations = r.locations;
    counts = r.counts;
    bodies = set_session-All (HasHandler http start) system.sessions i session' r.bodies h;
  }

  Step-IsReached :
      (given new : List Answer) (system system' : System http)
      → IsPointing start
      → IsReached http start given system
      → Step http boost system new system'
      → IsReached http start (new ++ given) system'
  unfolding on_write on_error new_session handle_accept
  Step-IsReached given new system system' a r (accept _ true) = r
  Step-IsReached given new system system' a r (accept _ false) = record {
    handlers = r.handlers;
    locations = r.locations;
    counts = r.counts;
    bodies =
        All-append (HasHandler http start) system.sessions _ r.bodies ((λ n w. absurd (cc)), tt);
  }
  Step-IsReached given new system system' a r
        (header_read _ i world read {session} {session'} {server'} at w s e) =
      after_read given system i server' session' r (
        on_read_header-Effect http boost world system.server session read
          (pointing given system r a) e)
  Step-IsReached given new system system' a r
        (body_read _ i n world read {session} {session'} {server'} at w s e) =
      after_read given system i server' session' r
        (on_read_body-Effect http boost world system.server session read e)
  Step-IsReached given new system system' a r (written _ i text {session} at w) =
      after_other given system i (on_write http session) r (λ n w. absurd (cc))
  Step-IsReached given new system system' a r (failed _ i {session} at w) =
      after_other given system i (on_error http session) r (λ n w. absurd (cc))

  Run-IsReached :
      (given : List Answer) (system : System http)
      → IsPointing start
      → Run http boost start given system
      → IsReached http start given system
  Run-IsReached given system a begin = record {
    handlers = refl;
    locations = refl;
    counts = λ k. omega arith;
    bodies = tt;
  }
  Run-IsReached given system a (more before new s s' run step) =
      Step-IsReached before new s s' a (Run-IsReached before s a run) step

  pub run-IsPointing :
      (given : List Answer) (system : System http)
      → IsPointing start
      → Run http boost start given system
      → IsPointing system.server
  run-IsPointing given system a run = pointing given system (Run-IsReached given system a run) a

  -- From a server with no requests counted and a handler for every location, in whatever order its
  -- sessions run, the table of requests holds each pair of a target and a status as often as the sessions
  -- have answered with it.
  pub run-served :
      (given : List Answer) (system : System http)
      → IsPointing start
      → start.requests_ ≡ []
      → Run http boost start given system
      → (k : Answer) → served system.server k ≡ occurrences k given
  unfolding find
  run-served given system a fresh run k =
      (Run-IsReached given system a run).counts k ∙ rw (served, count, fresh) (omega arith)

  -- In every run, a session that waits for the rest of a body holds a pointer to one of the server's
  -- handlers, and whatever the rest is, that handler is called with the whole body: the branch for a null
  -- pointer is not taken.
  pub run-on_read_body :
      (given : List Answer) (system : System http) (i n : ℕ) (session : Session http)
      → IsPointing start
      → Run http boost start given system
      → session_at system.sessions i ≡ some session
      → session.waiting ≡ for_body n
      → (p : Pointer) × (h : RequestHandler) × (session.request_handler_ ≡ some (some p))
        × (get_elem? system.server.handlers p ≡ some h)
        × ((world : World http) (read : Bytes)
            → on_read_body http boost world system.server session read
              ≡ call_handler http boost world system.server
                  (record session { body_data = session.body_data ++ read })
                  p
                  (http.body session.request_ ++ (session.body_data ++ read)))
  run-on_read_body given system i n session a run at w =
      let r = Run-IsReached given system a run in
      let (p, e, below) =
        session_at-All (HasHandler http start) system.sessions i r.bodies at n w in
      let (h, there) = get_elem?-lt start.handlers p below in
      (
        p,
        h,
        e,
        ap (λ hs. get_elem? hs p) r.handlers ∙ there,
        λ world read. on_read_body-known http boost world system.server session p read e,
      )
