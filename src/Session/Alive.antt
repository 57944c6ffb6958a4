-- ===== src/Session/Alive.antt =====
-- A request that its handler answers gets that answer, and the session is ready for the next one.
use aite_cs.Prelude.{
  ℕ, suc, ◌≤◌, true, [], Option, some, Bytes, length, ok, ◌≡◌, refl, sym, ap, ◌∙◌, arith,
}
use aite_cs.Handlers.{RequestHandler}
use aite_cs.Handlers.Dispatch.{handle_request}
use aite_cs.Handlers.Kept.{handle_request-Keeps}
use aite_cs.Handlers.Meme.Actions.{Handled}
use aite_cs.Http.{Http, World, RequestLaws}
use aite_cs.RequestParser.Parse.{reset}
use aite_cs.RequestParser.Translate.{translate-target}
use aite_cs.RequestParser.Wire.{Wire, meaning}
use aite_cs.Server.Metrics.{
  request_key, served, same_pair, same_pair_iff, log_request-served, log_request-count,
}
use aite_cs.Server.State.{Pointer, Server}
use aite_cs.Server.Tables.{get_elem?}
use aite_cs.Session.Callbacks.{Session, for_header, for_write, content_length_field}
use aite_cs.Session.Run.{Answer}
use aite_cs.Session.Split.{sent, served as exchange, Accepts, Arrival, received, received-served}
use aite_cs.Session.Body.{Announces}
use aite_cs.Standard.Ints.{int_max}
use aite_cs.Standard.Map.{Map, assign}
use aite_cs.Standard.Map.Sorted.{count}
use aite_cs.Utils.FilePath.{BoostPath}

-- A session that waits for a header as it did at the start, with no rest of an earlier request.
pub record IsReady (http : Http) (session : Session http) : Type 0 where
  pub parser : session.state_ ≡ reset
  pub no_body : http.body session.request_ ≡ []
  pub fresh : session.body_data ≡ []
  pub waits : session.waiting ≡ for_header

module _ (http : Http) (laws : RequestLaws http) (boost : BoostPath) (world : World http) where
  open http use {Request, target, set_body, clear, result, print_response}

  -- A session with an answer on its way out.
  sent-IsReady :
      (server : Server) (req : Request) (response : http.Response) (pointer : Option Pointer)
      → suc (served server (target req, result response)) ≤ int_max
      → (server' : Server) × (next : Session http) × (sent http boost world server req response
            pointer
          ≡ ok (server', for_write (print_response response), next))
        × IsReady http next
        × (served server' (target req, result response)
            ≡ suc (served server (target req, result response)))
  unfolding sent
  sent-IsReady server req response pointer small =
      let r : Answer = (target req, result response) in
      let logged = log_request-served server r small in
      let counted = log_request-count server r r logged in
      let itself : same_pair r r ≡ true = (same_pair_iff r r).1 refl in
      let counting = record server {
        requests_ = assign server.requests_ r (suc (served server r));
      } in
      let next : Session http = record {
        state_ = reset;
        request_ = set_body (clear req) [];
        response_ = response;
        request_handler_ = some pointer;
        body_data = [];
        waiting = for_header;
      } in
      (
        counting,
        next,
        rw logged refl,
        record {
          parser = refl;
          no_body = laws.body-set_body (clear req) [];
          fresh = refl;
          waits = refl;
        },
        (rw itself at counted) ∙ omega arith,
      )

  -- On a connection that is ready, a well-formed request that `translate` makes a message of, without a body or with one of the announced length that
  -- comes with the header or in two reads, is answered with the response of the handler that is found for its target, if that handler
  -- returns: the response is what is written, it is counted once under the target and its status, and after the
  -- write the session is ready for the next request.
  pub on_read_header-IsReady :
      (server : Server) (session : Session http) (w : Wire) (req : Request) (pointer : Pointer)
      (content : Bytes) (arrival : Arrival content) (h : RequestHandler) (handled : Handled http)
      → Accepts http laws boost world server session w req pointer
      → Announces (content_length_field http req) (length content)
      → get_elem? server.handlers pointer ≡ some h
      → handle_request http boost world server h (set_body req content) ≡ ok handled
      → suc (served server (w.uri, result handled.response)) ≤ int_max
      → (server' : Server) × (next : Session http) × (received http boost world server session w
            arrival
          ≡ ok (server', for_write (print_response handled.response), next))
        × IsReady http next
        × (served server' (w.uri, result handled.response)
            ≡ suc (served server (w.uri, result handled.response)))
  unfolding exchange
  on_read_header-IsReady server session w req pointer content arrival h handled a announced there
        answers small =
      let split =
        received-served http boost world laws server session w req pointer content arrival a
          announced in
      let whole = set_body req content in
      let to : target whole ≡ w.uri =
        laws.target-set_body req content
        ∙ (translate-target http laws session.request_ (meaning w) a.message).0 in
      let kept = handle_request-Keeps http boost world server h whole answers in
      let before : served handled.server (target whole, result handled.response)
          ≡ served server (w.uri, result handled.response) =
        ap (λ (m : Map Answer ℕ). count m (target whole, result handled.response)) kept.requests
        ∙ ap (λ (t : Bytes). served server (t, result handled.response)) to in
      let (server', next, e, ready, counts) =
        sent-IsReady handled.server whole handled.response (some pointer) (omega (arith, before)) in
      (
        server',
        next,
        split ∙ rw (exchange, there, answers) e,
        ready,
        ap (λ (t : Bytes). served server' (t, result handled.response)) (sym to)
            ∙ counts
            ∙ ap suc before,
      )
