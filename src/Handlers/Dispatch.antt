-- ===== src/Handlers/Dispatch.antt =====
-- include/request_handler.h: `handle_request`, by the class of the handler.
use aite_cs.Prelude.{some, Result, ok, ◌>>=◌}
use aite_cs.Handlers.{
  RequestHandler, echo, static_file, reverse_proxy, not_found, sleep, meme, status, health,
}
use aite_cs.Handlers.Meme.Actions.{Handled, answer, handle_meme}
use aite_cs.Handlers.Pages.{
  handle_echo, handle_not_found, handle_health, handle_sleep, handle_static_file,
}
use aite_cs.Handlers.ReverseProxy.Proxying.{handle_reverse_proxy}
use aite_cs.Handlers.Status.{handle_status}
use aite_cs.Http.{Http, World}
use aite_cs.Server.State.{Server}
use aite_cs.Utils.FilePath.{BoostPath}

module _ (http : Http) (boost : BoostPath) (world : World http) where
  unfoldable pub handle_request : Server → RequestHandler → http.Request → Result (Handled http)
  handle_request server echo req = ok (answer http server (handle_echo http req))
  handle_request server (static_file root location) req = do
    response ← handle_static_file http boost world root location req
    ok (answer http server response)
  handle_request server (reverse_proxy location host port) req = do
    response ← handle_reverse_proxy http world location host port req
    ok (answer http server response)
  handle_request server not_found req = ok (answer http server (handle_not_found http req))
  handle_request server sleep req = ok (answer http server (handle_sleep http req))
  handle_request server (meme root) req = handle_meme http boost world root server req
  handle_request server status req = do
    response ← handle_status http (some server) req
    ok (answer http server response)
  handle_request server health req = ok (answer http server (handle_health http (some server) req))
