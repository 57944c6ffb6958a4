-- ===== src/Handlers/ReverseProxy/Proxying.antt =====
-- src/handlers/reverse_proxy_handler.cc: `handle_request` and `prepare_proxied_resp`.
use aite_cs.Prelude.{
  ◌&&◌, ◌++◌, Option, none, some, Bytes, codes, leb, if◌then◌else◌, Result, ok, err, ◌>>=◌,
  or_uncaught, unfinished,
}
use aite_cs.Handlers.ReverseProxy.{proxied_target, redirected, prepared_body}
use aite_cs.HttpClient.{perform_request}
use aite_cs.Http.{Http, World}

abbrev pub or_unfinished {ℓ} : {A : Type ℓ} → Option A → Result A
or_unfinished none = err unfinished
or_unfinished (some a) = ok a

module _ (http : Http) where
  open http use {
    Request, Response, set_target, set_field, set_header, set_content, prepare_payload, unchunk,
    target, content, find_header, result_int,
  }

  unfoldable pub prepare_proxied_resp : Bytes → Response → Result Response
  prepare_proxied_resp location resp = do
    body ← or_unfinished (prepared_body location (content (unchunk resp)))
    ok (prepare_payload (set_content (unchunk resp) body))

  -- The `Location` header of an answer with a status from 300 to 399.
  unfoldable pub redirect_resp : Bytes → Response → Response
  redirect_resp location resp =
      if leb 300 (result_int resp) && leb (result_int resp) 399
      then elim (redirected location (result_int resp) (find_header resp (codes "Location"))) [
        | none ↦ resp
        | some redirect ↦ set_header resp (codes "Location") redirect
      ]
      else resp

  -- The request that is sent on.
  unfoldable pub proxied_request : Bytes → Bytes → Bytes → Request → Result Request
  proxied_request location host port req = do
    proxied ← or_uncaught (proxied_target location (target req))
    ok (
        set_field (set_field (set_target req proxied) (codes "Host") (host ++ codes ":" ++ port))
          (codes "Accept-Encoding") (codes "identity"))

  unfoldable pub handle_reverse_proxy :
      World http → Bytes → Bytes → Bytes → Request → Result Response
  handle_reverse_proxy world location host port req = do
    sent ← proxied_request location host port req
    resp ← perform_request http world.network host port sent
    prepare_proxied_resp location (redirect_resp location resp)
