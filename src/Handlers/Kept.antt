-- ===== src/Handlers/Kept.antt =====
-- What a handler leaves alone of the server: everything but the log of the memes.
use aite_cs.Prelude.{
  List, some, Bytes, Result, ok, codes, equal, ◌>>=◌, bind-eq-ok, Bool-cases, Option-cases, inl,
  inr, ◌≡◌, refl, subst,
}
use aite_cs.Handlers.{
  RequestHandler, echo, static_file, reverse_proxy, not_found, sleep, meme, status, health,
}
use aite_cs.Handlers.Dispatch.{handle_request}
use aite_cs.Handlers.Meme.Actions.{
  Handled, answer, handle_meme, generate_meme, create_meme, browse_memes, browse_page,
  answer_upload, log_and_show, selections_of, image_url,
}
use aite_cs.Handlers.Pages.{handle_static_file}
use aite_cs.Handlers.Meme.Styles.{chosen_style, gallery}
use aite_cs.Handlers.Meme.Upload.{Stage, Upload, accepted, refused, threw, read_upload}
use aite_cs.Handlers.ReverseProxy.Proxying.{handle_reverse_proxy}
use aite_cs.Handlers.Status.{handle_status}
use aite_cs.Http.{Http, World}
use aite_cs.Server.Metrics.{log_meme}
use aite_cs.Server.State.{Server}
use aite_cs.Standard.Map.{find, bytes_key}
use aite_cs.Utils.FilePath.{BoostPath, convert_to_absolute_path}

-- The tables other than `memes_`.
pub record Keeps (before after : Server) : Type 0 where
  pub handlers : after.handlers ≡ before.handlers
  pub locations : after.location_to_handler_ ≡ before.location_to_handler_
  pub requests : after.requests_ ≡ before.requests_
  pub prefixes : after.handler_to_prefixes_ ≡ before.handler_to_prefixes_
  pub types : after.type_to_handler_ ≡ before.type_to_handler_

Keeps-refl : (server : Server) → Keeps server server
Keeps-refl server = record {
  handlers = refl;
  locations = refl;
  requests = refl;
  prefixes = refl;
  types = refl;
}

log_meme-Keeps :
    (server : Server) (url : Bytes) (selections : List Bytes)
    → Keeps server (log_meme server url selections)
unfolding log_meme
log_meme-Keeps server url selections = elim (Option-cases (find server.memes_ url)) [
  | inl new ↦
      rw (log_meme, new)
        (record {
          handlers = refl;
          locations = refl;
          requests = refl;
          prefixes = refl;
          types = refl;
        })
  | inr (old, seen) ↦ rw (log_meme, seen) (Keeps-refl server)
]

module _ (http : Http) (boost : BoostPath) (world : World http) where
  same_server :
      (server : Server) (response : http.Response) {handled : Handled http}
      → ok (answer http server response) ≡ ok handled
      → Keeps server handled.server
  same_server server response {handled} e =
      let same : server ≡ handled.server = cc in subst (Keeps server) same (Keeps-refl server)

  log_and_show-Keeps :
      (server : Server) (upload : Upload) {handled : Handled http}
      → log_and_show http server upload ≡ ok handled
      → Keeps server handled.server
  unfolding log_and_show
  log_and_show-Keeps server upload {handled} e =
      let (chosen, _, there) = bind-eq-ok (chosen_style upload.style) _ e in
      let same : log_meme server (image_url upload) (selections_of upload) ≡ handled.server = cc in
      subst (Keeps server) same (log_meme-Keeps server (image_url upload) (selections_of upload))

  answer_upload-Keeps :
      (server : Server) (read : Stage Upload) {handled : Handled http}
      → answer_upload http server read ≡ ok handled
      → Keeps server handled.server
  unfolding answer_upload
  answer_upload-Keeps server (refused code message) e = same_server server _ e
  answer_upload-Keeps server threw e = absurd (cc)
  answer_upload-Keeps server (accepted upload) e = log_and_show-Keeps server upload e

  then_answer :
      (server : Server) {A : Type 0} (run : Result A) (response : A → http.Response)
      {handled : Handled http}
      → run >>= (λ a. ok (answer http server (response a))) ≡ ok handled
      → Keeps server handled.server
  then_answer server run response e =
      let (a, _, there) = bind-eq-ok run _ e in same_server server (response a) there

  create_meme-Keeps :
      (server : Server) {handled : Handled http}
      → create_meme http boost world server ≡ ok handled
      → Keeps server handled.server
  unfolding create_meme
  create_meme-Keeps server {handled} e =
      let (path, _, there) =
        bind-eq-ok (convert_to_absolute_path boost (codes "./memes/meme_creation.html")) _ e in
      elim (Option-cases (world.read_file path)) [
        | inl missing ↦ same_server server _ (rw missing at there)
        | inr (content, found) ↦ same_server server _ (rw found at there)
      ]

  handle_meme-Keeps :
      (root : Bytes) (server : Server) (req : http.Request) {handled : Handled http}
      → handle_meme http boost world root server req ≡ ok handled
      → Keeps server handled.server
  unfolding handle_meme generate_meme browse_memes
  handle_meme-Keeps root server req e =
      elim (Bool-cases (equal (http.target req) (codes "/meme/generate"))) [
        | inl generate ↦
            answer_upload-Keeps server (read_upload http world root req) (rw generate at e)
        | inr g ↦ elim (Bool-cases (equal (http.target req) (codes "/meme/create"))) [
          | inl create ↦ create_meme-Keeps server (rw (g, create) at e)
          | inr c ↦ elim (Bool-cases (equal (http.target req) (codes "/meme/browse"))) [
            | inl browse ↦
                then_answer server (gallery server.memes_) (browse_page http)
                  (rw (g, c, browse) at e)
            | inr b ↦ same_server server _ (rw (g, c, b) at e)
          ]
        ]
      ]

  -- When a handler answers, the server has the handlers, the locations, the counts, the prefixes and the
  -- types that it had before.
  pub handle_request-Keeps :
      (server : Server) (handler : RequestHandler) (req : http.Request) {handled : Handled http}
      → handle_request http boost world server handler req ≡ ok handled
      → Keeps server handled.server
  unfolding handle_request
  handle_request-Keeps server echo req e = same_server server _ e
  handle_request-Keeps server (static_file root location) req e =
      then_answer server (handle_static_file http boost world root location req) (λ r. r) e
  handle_request-Keeps server (reverse_proxy location host port) req e =
      then_answer server (handle_reverse_proxy http world location host port req) (λ r. r) e
  handle_request-Keeps server not_found req e = same_server server _ e
  handle_request-Keeps server sleep req e = same_server server _ e
  handle_request-Keeps server (meme root) req e = handle_meme-Keeps root server req e
  handle_request-Keeps server status req e =
      then_answer server (handle_status http (some server) req) (λ r. r) e
  handle_request-Keeps server health req e = same_server server _ e
