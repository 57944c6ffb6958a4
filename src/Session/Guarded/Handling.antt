-- ===== src/Session/Guarded/Handling.antt =====
-- The handlers.
use aite_cs.Prelude.{
  Bool-cases, inl, inr, or_uncaught, ℕ, zero, suc, List, [], ◌∷◌, some, Bytes, codes, equal, ok,
  arith, Bool-cases, Option-cases, inl, inr,
}
use aite_cs.Handlers.{
  RequestHandler, echo, static_file, reverse_proxy, not_found, sleep, meme, status, health,
}
use aite_cs.Handlers.Dispatch.{handle_request}
use aite_cs.Handlers.Meme.Actions.{
  answer, log_and_show, answer_upload, generate_meme, browse_memes, browse_page, create_meme,
  handle_meme,
}
use aite_cs.Handlers.Pages.{handle_static_file}
use aite_cs.Handlers.StaticFile.{parse_path_from_uri}
use aite_cs.Handlers.Meme.Styles.{chosen_style, gallery_round, gallery}
use aite_cs.Handlers.Meme.Upload.{Stage, Upload, accepted, refused, threw, read_upload}
use aite_cs.Handlers.ReverseProxy.{proxied_target}
use aite_cs.Handlers.ReverseProxy.Proxying.{
  proxied_request, redirect_resp, prepare_proxied_resp, handle_reverse_proxy,
}
use aite_cs.Handlers.Status.{status_class, add_count, add_rows, request_table, handle_status}
use aite_cs.Handlers.ReverseProxy.Relayed.{prepared_body-Prepared}
use aite_cs.HttpClient.{closed, exchanged, perform_request}
use aite_cs.Http.{Ending, no_error, not_connected, other_error, Network, Http, World}
use aite_cs.Server.Metrics.{request_key, add_one, log_request}
use aite_cs.Server.State.{Server}
use aite_cs.Session.Guarded.{or_uncaught-IsGuarded, IsGuarded, bind-IsGuarded}
use aite_cs.Session.Guarded.Reading.{convert_to_absolute_path-IsGuarded}
use aite_cs.Standard.Ints.{stoi}
use aite_cs.Standard.Map.{Map, find}
use aite_cs.Utils.FilePath.{BoostPath, convert_to_absolute_path}

chosen_style-IsGuarded : (style : Bytes) → IsGuarded (chosen_style style)
unfolding chosen_style
chosen_style-IsGuarded style =
    bind-IsGuarded (or_uncaught (stoi style)) _ (or_uncaught-IsGuarded (stoi style)) (λ z e. tt)

gallery_round-IsGuarded :
    (url : Bytes) (selections : List Bytes) → IsGuarded (gallery_round url selections)
unfolding gallery_round
gallery_round-IsGuarded url [] = ((λ e. cc), λ e. cc)
gallery_round-IsGuarded url (_ ∷ []) = ((λ e. cc), λ e. cc)
gallery_round-IsGuarded url (_ ∷ _ ∷ []) = ((λ e. cc), λ e. cc)
gallery_round-IsGuarded url (top ∷ bottom ∷ style ∷ rest) =
    bind-IsGuarded (chosen_style style) _ (chosen_style-IsGuarded style)
      (λ chosen _. elim (Option-cases chosen) [ inl e ↦ rw e tt | inr (s, e) ↦ rw e tt ])

gallery-IsGuarded : (memes : Map Bytes (List Bytes)) → IsGuarded (gallery memes)
unfolding gallery
gallery-IsGuarded [] = tt
gallery-IsGuarded ((url, selections) ∷ memes) =
    let rest = gallery-IsGuarded memes in
    bind-IsGuarded (gallery_round url selections) _ (gallery_round-IsGuarded url selections)
      (λ entry _. elim (Option-cases entry) [
        | inl e ↦ rw e tt
        | inr (html, e) ↦ rw e (
            bind-IsGuarded (gallery memes) _ rest
              (λ later _. elim (Option-cases later) [ inl l ↦ rw l tt | inr (more, l) ↦ rw l tt ]))
      ])

status_class-IsGuarded : (n : ℕ) → IsGuarded (status_class n)
unfolding status_class
status_class-IsGuarded zero = ((λ e. cc), λ e. cc)
status_class-IsGuarded (suc n) = tt

add_count-IsGuarded : (total n : ℕ) → IsGuarded (add_count total n)
unfolding add_count
add_count-IsGuarded total n = ground arith

module _ (http : Http) where
  prepare_proxied_resp-IsGuarded :
      (location : Bytes) (resp : http.Response)
      → IsGuarded (prepare_proxied_resp http location resp)
  unfolding prepare_proxied_resp
  prepare_proxied_resp-IsGuarded location resp =
      let (body, e, _) = prepared_body-Prepared location (http.content (http.unchunk resp)) in
      rw e tt

  closed-IsGuarded : (ending : Ending) (resp : http.Response) → IsGuarded (closed http ending resp)
  unfolding closed
  closed-IsGuarded no_error resp = tt
  closed-IsGuarded not_connected resp = tt
  closed-IsGuarded other_error resp = ((λ e. cc), λ e. cc)

  exchanged-IsGuarded :
      (network : Network http) (address : Bytes) (req : http.Request)
      → IsGuarded (exchanged http network address req)
  unfolding exchanged
  exchanged-IsGuarded network address req = elim (Bool-cases (network.write address req)) [
    | inl sent ↦ rw sent (
        bind-IsGuarded (or_uncaught (network.read address req)) _
          (or_uncaught-IsGuarded (network.read address req))
          (λ resp _. closed-IsGuarded (network.shutdown address) resp))
    | inr broken ↦ rw broken ((λ e. cc), λ e. cc)
  ]

  perform_request-IsGuarded :
      (network : Network http) (host port : Bytes) (req : http.Request)
      → IsGuarded (perform_request http network host port req)
  unfolding perform_request
  perform_request-IsGuarded network host port req =
      bind-IsGuarded (or_uncaught (network.resolve host port)) _
        (or_uncaught-IsGuarded (network.resolve host port))
        (λ results _.
          bind-IsGuarded (or_uncaught (network.connect results)) _
            (or_uncaught-IsGuarded (network.connect results))
            (λ address _. exchanged-IsGuarded network address req))

  handle_reverse_proxy-IsGuarded :
      (world : World http) (location host port : Bytes) (req : http.Request)
      → IsGuarded (handle_reverse_proxy http world location host port req)
  unfolding handle_reverse_proxy proxied_request
  handle_reverse_proxy-IsGuarded world location host port req =
      bind-IsGuarded (proxied_request http location host port req) _
        (bind-IsGuarded (or_uncaught (proxied_target location (http.target req))) _
          (or_uncaught-IsGuarded (proxied_target location (http.target req))) (λ t e. tt))
        (λ sent _.
          bind-IsGuarded (perform_request http world.network host port sent) _
            (perform_request-IsGuarded world.network host port sent)
            (λ resp _. prepare_proxied_resp-IsGuarded location (redirect_resp http location resp)))

  add_rows-IsGuarded : (m : Map (Bytes × ℕ) ℕ) (total : ℕ) → IsGuarded (add_rows http m total)
  unfolding add_rows
  add_rows-IsGuarded [] total = tt
  add_rows-IsGuarded ((k, n) ∷ m) total =
      let rest = add_rows-IsGuarded m in
      bind-IsGuarded (status_class k.1) _ (status_class-IsGuarded k.1) (λ class _.
        bind-IsGuarded (add_count total n) _ (add_count-IsGuarded total n)
          (λ total' _. bind-IsGuarded (add_rows http m total') _ (rest total') (λ r e. tt)))

  request_table-IsGuarded : (m : Map (Bytes × ℕ) ℕ) → IsGuarded (request_table http m)
  unfolding request_table
  request_table-IsGuarded [] = tt
  request_table-IsGuarded (x ∷ m) =
      bind-IsGuarded (add_rows http (x ∷ m) 0) _ (add_rows-IsGuarded (x ∷ m) 0) (λ r e. tt)

  log_and_show-IsGuarded :
      (server : Server) (upload : Upload) → IsGuarded (log_and_show http server upload)
  unfolding log_and_show
  log_and_show-IsGuarded server upload =
      bind-IsGuarded (chosen_style upload.style) _ (chosen_style-IsGuarded upload.style) (λ c e. tt)

  answer_upload-IsGuarded :
      (server : Server) (read : Stage Upload) → IsGuarded (answer_upload http server read)
  unfolding answer_upload
  answer_upload-IsGuarded server (refused code message) = tt
  answer_upload-IsGuarded server threw = ((λ e. cc), λ e. cc)
  answer_upload-IsGuarded server (accepted upload) = log_and_show-IsGuarded server upload

  create_meme-IsGuarded :
      (boost : BoostPath) (world : World http) (server : Server)
      → IsGuarded (create_meme http boost world server)
  unfolding create_meme
  create_meme-IsGuarded boost world server =
      bind-IsGuarded (convert_to_absolute_path boost _) _
        (convert_to_absolute_path-IsGuarded boost _)
        (λ path _. elim (Option-cases (world.read_file path)) [
          | inl e ↦ rw e tt
          | inr (c, e) ↦ rw e tt
        ])

  handle_meme-IsGuarded :
      (boost : BoostPath) (world : World http) (root : Bytes) (server : Server) (req : http.Request)
      → IsGuarded (handle_meme http boost world root server req)
  unfolding handle_meme generate_meme browse_memes
  handle_meme-IsGuarded boost world root server req =
      let generated = answer_upload-IsGuarded server (read_upload http world root req) in
      let created = create_meme-IsGuarded boost world server in
      let browsed =
        bind-IsGuarded (gallery server.memes_)
          (λ entries. ok (answer http server (browse_page http entries)))
          (gallery-IsGuarded server.memes_) (λ e x. tt) in
      elim (Bool-cases (equal (http.target req) (codes "/meme/generate"))) [
        | inl g ↦ rw g generated
        | inr g ↦ elim (Bool-cases (equal (http.target req) (codes "/meme/create"))) [
          | inl c ↦ rw (g, c) created
          | inr c ↦ elim (Bool-cases (equal (http.target req) (codes "/meme/browse"))) [
            | inl b ↦ rw (g, c, b) browsed
            | inr b ↦ rw (g, c, b) tt
          ]
        ]
      ]

  pub handle_request-IsGuarded :
      (boost : BoostPath) (world : World http) (server : Server) (handler : RequestHandler)
      (req : http.Request)
      → IsGuarded (handle_request http boost world server handler req)
  unfolding handle_request handle_status handle_static_file parse_path_from_uri
  handle_request-IsGuarded boost world server echo req = tt
  handle_request-IsGuarded boost world server (static_file root location) req =
      bind-IsGuarded (handle_static_file http boost world root location req) _
        (bind-IsGuarded (parse_path_from_uri boost root location (http.target req)) _
          (bind-IsGuarded (or_uncaught (boost.relative (http.target req) location)) _
            (or_uncaught-IsGuarded (boost.relative (http.target req) location)) (λ path e. tt))
          (λ path e. tt))
        (λ r e. tt)
  handle_request-IsGuarded boost world server (reverse_proxy location host port) req =
      bind-IsGuarded (handle_reverse_proxy http world location host port req) _
        (handle_reverse_proxy-IsGuarded world location host port req) (λ r e. tt)
  handle_request-IsGuarded boost world server not_found req = tt
  handle_request-IsGuarded boost world server sleep req = tt
  handle_request-IsGuarded boost world server (meme root) req =
      handle_meme-IsGuarded boost world root server req
  handle_request-IsGuarded boost world server status req =
      bind-IsGuarded (handle_status http (some server) req) _
        (bind-IsGuarded (request_table http server.requests_) _
          (request_table-IsGuarded server.requests_) (λ r e. tt))
        (λ r e. tt)
  handle_request-IsGuarded boost world server health req = tt

add_one-IsGuarded : (n : ℕ) → IsGuarded (add_one n)
add_one-IsGuarded n = ground arith

pub log_request-IsGuarded : (server : Server) (r : Bytes × ℕ) → IsGuarded (log_request server r)
unfolding log_request
log_request-IsGuarded server r = elim (Option-cases (find server.requests_ r)) [
  | inl new ↦ rw (log_request, new) tt
  | inr (n, seen) ↦
      rw (log_request, seen) (bind-IsGuarded (add_one n) _ (add_one-IsGuarded n) (λ m e. tt))
]
