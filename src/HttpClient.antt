-- ===== src/HttpClient.antt =====
-- src/http_client.cc: a request to another server.
use aite_cs.Prelude.{if◌then◌else◌, Bytes, Result, ok, err, ◌>>=◌, uncaught, or_uncaught}
use aite_cs.Http.{Http, Ending, no_error, not_connected, other_error, Network}

module _ (http : Http) where
  -- The end of the connection: an error other than `not_connected` is thrown.
  unfoldable pub closed : Ending → http.Response → Result http.Response
  closed no_error resp = ok resp
  closed not_connected resp = ok resp
  closed other_error resp = err uncaught

  -- From the first write on.
  unfoldable pub exchanged : Network http → Bytes → http.Request → Result http.Response
  exchanged network address req =
      if network.write address req
      then (or_uncaught (network.read address req) >>= λ resp.
          closed (network.shutdown address) resp)
      else err uncaught

  -- `HttpClient::perform_request`
  unfoldable pub perform_request :
      Network http → Bytes → Bytes → http.Request → Result http.Response
  perform_request network host port req = do
    results ← or_uncaught (network.resolve host port)
    address ← or_uncaught (network.connect results)
    exchanged network address req
