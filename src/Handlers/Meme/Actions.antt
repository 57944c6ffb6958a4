-- ===== src/Handlers/Meme/Actions.antt =====
-- src/handlers/meme_handler.cc: `handle_request` and the three pages.
use aite_cs.Prelude.{
  List, [], ◌∷◌, ◌++◌, Option, none, some, Bytes, codes, equal, if◌then◌else◌, Result, ok, err,
  ◌>>=◌, uncaught,
}
use aite_cs.Handlers.Meme.Html.{generated_head, generated_middle, generated_form, generated_style}
use aite_cs.Handlers.Meme.Styles.{TemplateStyle, chosen_style, style_sheet, gallery, browse_body}
use aite_cs.Handlers.Meme.Upload.{Stage, Upload, accepted, refused, threw, read_upload}
use aite_cs.Http.{Http, World}
use aite_cs.Server.Metrics.{log_meme}
use aite_cs.Server.State.{Server}
use aite_cs.Utils.ErrorPage.{page, show_error_page}
use aite_cs.Utils.FilePath.{BoostPath, convert_to_absolute_path}

-- What a handler leaves: its response, the server, and the images that it wrote, with their paths.
pub record Handled (http : Http) : Type 0 where
  pub response : http.Response
  pub server : Server
  pub images : List (Bytes × Bytes)

-- The address of an image on the pages.
unfoldable pub image_url : Upload → Bytes
image_url upload = codes "." ++ upload.path

unfoldable pub generated_body : Upload → TemplateStyle → Bytes
generated_body upload style =
    generated_head
    ++ upload.top
    ++ generated_middle
    ++ upload.bottom
    ++ generated_form
    ++ image_url upload
    ++ generated_style
    ++ style_sheet style
    ++ codes "</style></body></html>"

abbrev pub selections_of : Upload → List Bytes
selections_of upload = upload.top ∷ upload.bottom ∷ upload.style ∷ []

module _ (http : Http) where
  open http use {Request, Response, prepare_payload, target}

  abbrev pub answer : Server → Response → Handled http
  answer server response = record { response = response; server = server; images = [] }

  unfoldable pub html_page : Bytes → Response
  html_page content = prepare_payload (page http 200 (codes "text/html") content)

  unfoldable pub style_page : Upload → Option TemplateStyle → Response
  style_page upload none = show_error_page http 400 (codes "Invalid meme request")
  style_page upload (some style) = html_page (generated_body upload style)

  -- From `log_meme` on: the meme is logged before its style is read.
  unfoldable pub log_and_show : Server → Upload → Result (Handled http)
  log_and_show server upload =
      let logged = log_meme server (image_url upload) (selections_of upload) in
      do
        chosen ← chosen_style upload.style
        ok (record { response = style_page upload chosen; server = logged; images = upload.images })

  -- An error page for an upload that is refused.
  unfoldable pub answer_upload : Server → Stage Upload → Result (Handled http)
  answer_upload server (refused status message) =
      ok (answer server (show_error_page http status message))
  answer_upload server threw = err uncaught
  answer_upload server (accepted upload) = log_and_show server upload

  unfoldable pub generate_meme : World http → Bytes → Server → Request → Result (Handled http)
  generate_meme world root server req = answer_upload server (read_upload http world root req)

  unfoldable pub browse_page : Option Bytes → Response
  browse_page none = show_error_page http 400 (codes "Invalid meme request")
  browse_page (some entries) = html_page (browse_body entries)

  unfoldable pub browse_memes : Server → Result (Handled http)
  browse_memes server = do entries ← gallery server.memes_; ok (answer server (browse_page entries))

  unfoldable pub create_meme : BoostPath → World http → Server → Result (Handled http)
  create_meme boost world server = do
    path ← convert_to_absolute_path boost (codes "./memes/meme_creation.html")
    elim (world.read_file path) [
      | none ↦
          ok (answer server (show_error_page http 500 (codes "error getting meme creation form")))
      | some content ↦ ok (answer server (html_page content))
    ]

  -- The branch for a null pointer to the server, before `initMeme`. It has the name of another handler.
  unfoldable pub meme_without_server : Response
  meme_without_server =
      show_error_page http 500 (codes "Status Handler was not correctly initialized")

  -- The other branch.
  unfoldable pub handle_meme :
      BoostPath → World http → Bytes → Server → Request → Result (Handled http)
  handle_meme boost world root server req =
      if equal (target req) (codes "/meme/generate")
      then generate_meme world root server req
      else if equal (target req) (codes "/meme/create")
      then create_meme boost world server
      else if equal (target req) (codes "/meme/browse")
      then browse_memes server
      else ok (answer server (show_error_page http 404 (target req ++ codes " page not found")))
