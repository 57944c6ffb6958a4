-- ===== src/Tests/Handling.antt =====
-- The handlers on small inputs, and the theorems applied to them.
use aite_cs.Prelude.{[], ◌∷◌, some, ok, true, false, Bytes, codes, equal, ◌≡◌, refl}
use aite_cs.Handlers.ReverseProxy.{find_split, replace_loop, replaced_absolute_paths, prepared_body}
use aite_cs.Handlers.ReverseProxy.Relayed.{Led, Prepared, forwarded, handle_reverse_proxy-Prepared}
use aite_cs.Handlers.ReverseProxy.Proxying.{handle_reverse_proxy}
use aite_cs.Http.{not_connected, World}
use aite_cs.HttpClient.{closed, exchanged, perform_request}
use aite_cs.Tests.Messages.{Letter, Reply, plain, quiet}
use aite_cs.Handlers.StaticFile.{content_type}

-- A path is rewritten, one behind two slashes is not.
rewritten_body :
    prepared_body (codes "/p") (codes "<a href=\"/x\"><a href=\"//y\">")
    ≡ some (codes "<a href=\"/p/x\"><a href=\"//y\">")
unfolding prepared_body replaced_absolute_paths replace_loop find_split
rewritten_body = refl

png_type :
    (content_type (codes ".png") ≡ codes "image/png") × (content_type [] ≡ codes "text/plain")
unfolding content_type equal
png_type = (refl, refl)

-- A server that answers every request with a redirect and a page.
abbrev moved : Reply
moved = record {
  status = 302;
  headers = (codes "Location", codes "/y") ∷ [];
  text = codes "src=\"/x\"";
}

abbrev moving : World plain
moving = record quiet {
  network = record {
    resolve = λ host port. some (host ∷ []);
    connect = λ results. some (codes "h");
    write = λ address req. true;
    read = λ address req. some moved;
    shutdown = λ address. not_connected;
  };
}

abbrev proxied_get : Letter
proxied_get = record { post = false; address = codes "/p/x"; fields = []; text = [] }

moved_answer :
    perform_request plain moving.network
      (codes "h")
      (codes "80")
      (forwarded plain (codes "h") (codes "80") (codes "/x") proxied_get)
    ≡ ok moved
unfolding perform_request exchanged closed
moved_answer = refl

handle_reverse_proxy-Prepared_example :
    (led : Reply) × Led plain (codes "/p") moved led
    × (body : Bytes) × Prepared (codes "/p") led.text body
    × (handle_reverse_proxy plain moving (codes "/p") (codes "h") (codes "80") proxied_get
        ≡ ok (record led { text = body }))
handle_reverse_proxy-Prepared_example =
    handle_reverse_proxy-Prepared plain moving (codes "/p") (codes "h") (codes "80") (codes "/x")
      proxied_get moved refl moved_answer
